-- ===== src/Engine/Founding.antt =====
-- What the creation of a region leaves in the store.
use v_kernelx.Base.{ℕ, ◌≡◌, refl, ap, ◌∙◌, Option, none, some}
use v_kernelx.Base.Text.{Str, str}
use v_kernelx.Base.Map.{get, get-insert_self}
use v_kernelx.Engine.{append_canonical_event, ensure_parent_closure}
use v_kernelx.Engine.Inversion.{bind-done, lift-done, lift_at-done, lift-returned, try_write-done}
use v_kernelx.Engine.Monad.{KernelEngine, done}
use v_kernelx.Engine.Queries.{query_region_by_name, is_some, create_region}
use v_kernelx.Error.{ok, invalid_state, fail_if}
use v_kernelx.Event.{VectorEvent}
use v_kernelx.External.{External}
use v_kernelx.Region.Reading.{region_state_from_event}
use v_kernelx.Region.Request.{
  validate_region_create_request, verify_region_create_request_signature,
}
use v_kernelx.Region.Types.{RegionCreateRequest, RegionState}
use v_kernelx.Storage.{append_event}
use v_kernelx.Storage.Append.{append_event-eq-ok_iff}
use v_kernelx.Validation.{validate_event}

-- A region was founded: its request was valid and signed by the actor, its lookup key was free,
-- and the event that it is read from has been checked and stored.
pub record IsFounded (ext : External) (request : RegionCreateRequest) (actor : Str)
    (before after : KernelEngine) (region : RegionState) : Type 0 where
  pub valid : validate_region_create_request request ≡ ok tt
  pub signed : verify_region_create_request_signature ext actor request ≡ ok tt
  pub free : query_region_by_name request.region_name request.region_prefix before.store ≡ ok none
  pub event : VectorEvent
  pub checked : validate_event ext event ≡ ok tt
  pub stored : get event.event_hash after.store.events ≡ some event
  pub read : region_state_from_event event ≡ ok region

unused_key :
    (taken : Option RegionState)
    → fail_if (is_some taken) (invalid_state (str "region already exists for this lookup key"))
      ≡ ok tt
    → taken ≡ none
unused_key none h = refl
unused_key (some region) h = absurd (cc (h))

-- An append that returns has stored the event under its hash.
append_canonical_event-stores :
    (ext : External) (e : VectorEvent) (k k' : KernelEngine)
    → append_canonical_event ext e k ≡ (done tt, k')
    → get e.event_hash k'.store.events ≡ some e
unfolding append_canonical_event
append_canonical_event-stores ext e k k' h =
    let (_, valid, h1) = lift-done _ _ k k' tt h in
    let (_, closed, h2) =
      lift_at-done (λ j. ensure_parent_closure e e.parent_hashes j.store) _ k k' tt h1 in
    let (fresh, same) =
      (append_event-eq-ok_iff e k.store k'.store).0 (try_write-done (append_event e) k k' h2) in
    rw same (get-insert_self e.event_hash e k.store.events)

-- A creation of a region that returns had a valid request, signed by the actor, for a lookup key
-- that was free; the event that the returned region is read from has been validated and is stored
-- under its hash.
pub create_region-IsFounded :
    (ext : External) (now : ℕ → ℕ) (request : RegionCreateRequest) (actor : Str)
    (k k' : KernelEngine) (region : RegionState)
    → create_region ext now request actor k ≡ (done region, k')
    → IsFounded ext request actor k k' region
unfolding create_region
create_region-IsFounded ext now request actor k k' region h =
    let (_, valid, h1) = lift-done _ _ k k' region h in
    let (_, signed, h2) = lift-done _ _ k k' region h1 in
    let (taken, asked, h3) =
      lift_at-done (λ j. query_region_by_name request.region_name request.region_prefix j.store) _ k
        k' region h2 in
    let (_, unused, h4) = lift-done _ _ k k' region h3 in
    let (_, named, h5) = lift-done _ _ k k' region h4 in
    let (clock, _, h6) = bind-done _ _ k k' region h5 in
    let (event, built, h7) = lift-done _ _ k k' region h6 in
    let (_, creates, h8) = lift-done _ _ k k' region h7 in
    let (_, checked, h9) = lift-done _ _ k k' region h8 in
    let (_, appended, h10) = bind-done _ _ k k' region h9 in
    let (read, same) =
      lift-returned (region_state_from_event event) (append_canonical_event ext event k).1 k' region
        h10 in
    record {
      valid = valid;
      signed = signed;
      free = asked ∙ ap ok (unused_key taken unused);
      event = event;
      checked = checked;
      stored =
          append_canonical_event-stores ext event k k' (appended ∙ ap (λ j. (done tt, j)) same);
      read = read;
    }
