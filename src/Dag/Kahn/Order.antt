-- ===== src/Dag/Kahn/Order.antt =====
-- Kahn's loop ends, and takes the nodes in a topological order.
use v_kernelx.Base.{
  ℕ, zero, suc, ◌+◌, ◌≤◌, ◌≡◌, refl, ap, some, List, [], ◌∷◌, ◌++◌, arith, length, inl, inr,
  Bool-cases, Ordering,
}
use v_kernelx.Base.Sort.{sort_by}
use v_kernelx.Base.Sort.Counts.{
  occurrences, remove, occurrences_self, length-remove, occurrences-remove_self,
  occurrences-remove_other,
}
use v_kernelx.Base.Text.{Str, str_eq, str_eq_iff}
use v_kernelx.Base.Map.{Map}
use v_kernelx.Dag.Kahn.{children_of, push_node, kahn}
use v_kernelx.Dag.Kahn.Progress.{pending, IsMiddle, release-IsMiddle, IsTopological, take-IsMiddle}

module _ (children : Map (List Str)) where
  module _ (order : Str → Str → Ordering) (tidy : List Str → List Str)
      (keeps : (h : Str) (xs : List Str) → occurrences h (tidy xs) ≡ occurrences h xs) where
    pub tidy-IsMiddle :
        (left : List Str) (indegree : Map ℕ) (ready : List Str)
        → IsMiddle children left [] indegree ready
        → IsMiddle children left [] indegree (tidy ready)
    tidy-IsMiddle left indegree ready m = record {
      counted = m.counted;
      once = λ h. omega (arith, m.once h, keeps h ready);
      free = λ h there. m.free h (omega (arith, there, keeps h ready));
      waiting = m.waiting;
    }

    -- With as much fuel as there are nodes left, the loop ends with a topological order.
    pub kahn-IsTopological :
        (fuel : ℕ) (left : List Str) (ready : List Str) (indegree : Map ℕ)
        → IsMiddle children left [] indegree ready
        → length left ≤ fuel
        → (nodes : List Str) × (kahn children order tidy fuel ready indegree ≡ some nodes)
          × IsTopological children left nodes
    unfolding kahn
    kahn-IsTopological fuel left [] indegree m enough = ([], refl, tt)
    kahn-IsTopological zero left (n ∷ ready) indegree m enough = absurd (
        omega (
          arith,
          enough,
          m.once n,
          occurrences_self n ready,
          length-remove n left (omega (arith, m.once n, occurrences_self n ready)),
        ))
    kahn-IsTopological (suc fuel) left (n ∷ ready) indegree m enough =
        let there : 1 ≤ occurrences n left = omega (arith, m.once n, occurrences_self n ready) in
        let idle : pending children n left ≡ 0 =
          omega (arith, m.counted n 0 (m.free n (omega (arith, occurrences_self n ready)))) in
        let released =
          release-IsMiddle children (remove n left) (sort_by order (children_of children n))
            indegree ready (take-IsMiddle children order left n indegree ready m) in
        let next = tidy-IsMiddle (remove n left) _ _ released in
        let (nodes, taken, sorted) =
          kahn-IsTopological fuel (remove n left) _ _ next
            (omega (arith, enough, length-remove n left there)) in
        (n ∷ nodes, ap (push_node n) taken, (there, idle, sorted))

  pending-child :
      (h p : Str) (left : List Str)
      → 1 ≤ occurrences p left
      → 1 ≤ occurrences h (children_of children p)
      → 1 ≤ pending children h left
  pending-child h p [] there child = omega (arith, there)
  pending-child h p (u ∷ us) there child = elim (Bool-cases (str_eq u p)) [
    | inl same ↦ let at = (str_eq_iff u p).0 same in rw at (omega (arith, child))
    | inr apart ↦ omega (arith, pending-child h p us (rw apart at there) child)
  ]

  -- Before a node of a topological order stands every node that it is a child of.
  pub parent_before :
      (left before after : List Str) (h p : Str)
      → IsTopological children left (before ++ (h ∷ after))
      → 1 ≤ occurrences p left
      → 1 ≤ occurrences h (children_of children p)
      → 1 ≤ occurrences p before
  parent_before left [] after h p t there child =
      absurd (omega (arith, pending-child h p left there child, t.1))
  parent_before left (n ∷ before) after h p t there child = elim (Bool-cases (str_eq n p)) [
    | inl same ↦ rw ((str_eq_iff n p).0 same) (omega (arith, occurrences_self p before))
    | inr apart ↦
        let rest =
          parent_before (remove n left) before after h p (t.2)
            (omega (arith, there, occurrences-remove_other n p left apart)) child in
        rw apart rest
  ]

  -- The nodes that are not taken.
  untaken : List Str → List Str → List Str
  untaken left [] = left
  untaken left (n ∷ nodes) = untaken (remove n left) nodes

  length-untaken :
      (left nodes : List Str)
      → IsTopological children left nodes
      → length nodes + length (untaken left nodes) ≡ length left
  unfolding untaken
  length-untaken left [] t = omega arith
  length-untaken left (n ∷ nodes) t =
      omega (arith, length-untaken (remove n left) nodes (t.2), length-remove n left (t.0))

  occurrences-untaken :
      (left nodes : List Str) (h : Str)
      → IsTopological children left nodes
      → occurrences h nodes + occurrences h (untaken left nodes) ≡ occurrences h left
  unfolding untaken
  occurrences-untaken left [] h t = omega arith
  occurrences-untaken left (n ∷ nodes) h t = elim (Bool-cases (str_eq n h)) [
    | inl same ↦
        let at : n ≡ h = (str_eq_iff n h).0 same in
        let head : occurrences h (n ∷ nodes) ≡ suc (occurrences h nodes) = rw same refl in
        omega (
          arith,
          head,
          occurrences-untaken (remove n left) nodes h (t.2),
          occurrences-remove_self n left (t.0),
          ap (λ g. occurrences g left) at,
          ap (λ g. occurrences g (remove n left)) at,
        )
    | inr apart ↦ rw apart (
        omega (
          arith,
          occurrences-untaken (remove n left) nodes h (t.2),
          occurrences-remove_other n h left apart,
        ))
  ]

  -- An order as long as the nodes has each of them as often.
  pub occurrences-topological :
      (left nodes : List Str) (h : Str)
      → IsTopological children left nodes
      → length nodes ≡ length left
      → occurrences h nodes ≡ occurrences h left
  occurrences-topological left nodes h t whole = omega (
    arith,
    occurrences-untaken left nodes h t,
    none_left (untaken left nodes) (omega (arith, length-untaken left nodes t, whole)),
  )
    where
      none_left : (xs : List Str) → length xs ≡ 0 → occurrences h xs ≡ 0
      none_left [] e = refl
      none_left (x ∷ xs) e = absurd (omega (arith, e))
