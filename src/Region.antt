-- ===== src/Region.antt =====
-- src/region.rs: which events create a region.
pub mod Types
pub mod Request
pub mod Core
pub mod Genesis
pub mod Reading
pub mod Meta
pub mod RoundTrip
pub mod Access
pub mod Totals
use v_kernelx.Base.{Bool, false, Option, none, some}
use v_kernelx.Base.Text.{Str, str, str_eq}
use v_kernelx.Base.Map.{get}
use v_kernelx.Event.{OperationType, origin_create, other, VectorEvent}

unfoldable pub region_create_operation_name : Str
region_create_operation_name = str "REGION_CREATE"

unfoldable pub region_type_tag : Str
region_type_tag = str "region"

abbrev is_tagged : Option Str → Bool
is_tagged none = false
is_tagged (some kind) = str_eq kind region_type_tag

abbrev creates : OperationType → Option Str → Bool
creates (other name) kind = str_eq name region_create_operation_name
creates origin_create kind = is_tagged kind
creates _ kind = false

unfoldable pub is_region_create_event : VectorEvent → Bool
is_region_create_event event =
    creates event.operation (get (str "region_kind") event.vector_after.metadata)
