-- ===== src/Dag/Kahn/Progress.antt =====
-- Every turn of Kahn's loop takes a node that has not been taken, all whose parents have been.
use v_kernelx.Base.{
  ℕ, zero, suc, ◌+◌, ◌≤◌, ◌≡◌, refl, sym, ap, ◌∙◌, Option, none, some, List, [], ◌∷◌, ◌++◌, arith,
  if◌then◌else◌, ◌==◌, inl, inr, Bool-cases, ==_iff, Ordering,
}
use v_kernelx.Base.Sort.{sort_by}
use v_kernelx.Base.Sort.Counts.{
  occurrences, remove, occurrences_self, occurrences-append, occurrences-sort_by,
  occurrences-remove_self, occurrences-remove_other,
}
use v_kernelx.Base.Text.{Str, str_eq, str_eq_iff}
use v_kernelx.Base.Map.{Map, get, insert, get-insert}
use v_kernelx.Dag.Kahn.{decrement, release, children_of}

module _ (children : Map (List Str)) where
  -- How often a node is a child of the given ones.
  abbrev pub pending : Str → List Str → ℕ
  pending h [] = 0
  pending h (u ∷ us) = occurrences h (children_of children u) + pending h us

  pending-remove :
      (h n : Str) (us : List Str)
      → 1 ≤ occurrences n us
      → pending h us ≡ occurrences h (children_of children n) + pending h (remove n us)
  pending-remove h n [] found = omega (arith, found)
  pending-remove h n (u ∷ us) found = elim (Bool-cases (str_eq u n)) [
    | inl here ↦ rw (here, (str_eq_iff u n).0 here) refl
    | inr there ↦
        let rest = pending-remove h n us (rw there at found) in rw there (omega (arith, rest))
  ]

  -- The state of the loop: the nodes `left` have not been taken, the children `due` of the node
  -- in hand have not been released.
  pub record IsMiddle (left due : List Str) (indegree : Map ℕ) (ready : List Str) : Type 0 where
    pub counted :
        (h : Str) (d : ℕ) → get h indegree ≡ some d → d ≡ occurrences h due + pending h left
    pub once : (h : Str) → occurrences h ready ≤ occurrences h left
    pub free : (h : Str) → 1 ≤ occurrences h ready → get h indegree ≡ some 0
    pub waiting : (h : Str) (d : ℕ) → get h indegree ≡ some d → 1 ≤ d → 1 ≤ occurrences h left

  module _ (left : List Str) (c : Str) (cs : List Str) (indegree : Map ℕ) (ready : List Str)
      (m : IsMiddle left (c ∷ cs) indegree ready) where
    release_missing : get c indegree ≡ none → IsMiddle left cs indegree ready
    release_missing gone = record {
      counted = λ h d found. elim (Bool-cases (str_eq c h)) [
        | inl same ↦ absurd (cc (found, gone, (str_eq_iff c h).0 same))
        | inr apart ↦ m.counted h d found ∙ rw apart refl
      ];
      once = m.once;
      free = m.free;
      waiting = m.waiting;
    }

    -- The child in hand waits for something, so its number can be lowered and stays counted.
    module _ (d : ℕ) (here : get c indegree ≡ some (suc d)) where
      lowered :
          (h : Str) → get h (insert c d indegree) ≡ (if str_eq c h then some d else get h indegree)
      lowered h = get-insert c h d indegree

      due_here : suc d ≡ suc (occurrences c cs) + pending c left
      due_here = m.counted c (suc d) here ∙ ap (λ n. n + pending c left) (occurrences_self c cs)

      absent : occurrences c ready ≡ 0
      absent = elim (Bool-cases (occurrences c ready == 0)) [
        | inl none_there ↦ ground arith
        | inr some_there ↦ absurd (ground (arith, m.free c, here))
      ]

      counted' :
          (h : Str) (e : ℕ)
          → get h (insert c d indegree) ≡ some e
          → e ≡ occurrences h cs + pending h left
      counted' h e found = elim (Bool-cases (str_eq c h)) [
        | inl same ↦
            let at : c ≡ h = (str_eq_iff c h).0 same in
            let value : d ≡ e = cc (found, lowered h, same) in
            rw (sym at) (omega (arith, due_here, value))
        | inr apart ↦
            let before : get h indegree ≡ some e = cc (found, lowered h, apart) in
            m.counted h e before ∙ rw apart refl
      ]

      waiting' :
          (h : Str) (e : ℕ) → get h (insert c d indegree) ≡ some e → 1 ≤ e → 1 ≤ occurrences h left
      waiting' h e found some_left = elim (Bool-cases (str_eq c h)) [
        | inl same ↦ rw (sym ((str_eq_iff c h).0 same)) (m.waiting c (suc d) here (omega arith))
        | inr apart ↦ m.waiting h e (cc (found, lowered h, apart)) some_left
      ]

      free' : (h : Str) → 1 ≤ occurrences h ready → get h (insert c d indegree) ≡ some 0
      free' h there = elim (Bool-cases (str_eq c h)) [
        | inl same ↦ absurd (
            let at = (str_eq_iff c h).0 same in
            omega (arith, there, absent, ap (λ g. occurrences g ready) at))
        | inr apart ↦ lowered h ∙ (rw apart (m.free h there))
      ]

      release_later : IsMiddle left cs (insert c d indegree) ready
      release_later = record { counted = counted'; once = m.once; free = free'; waiting = waiting' }

      release_now : d ≡ 0 → IsMiddle left cs (insert c d indegree) (ready ++ (c ∷ []))
      release_now last = record {
        counted = counted';
        once = λ h. elim (Bool-cases (str_eq c h)) [
          | inl same ↦
              let at : c ≡ h = (str_eq_iff c h).0 same in
              let waits = m.waiting c (suc d) here (omega arith) in
              rw (sym at) (
                omega (
                  arith,
                  occurrences-append c ready (c ∷ []),
                  occurrences_self c [],
                  absent,
                  waits,
                ))
          | inr apart ↦
              let alone : occurrences h (c ∷ []) ≡ 0 = rw apart refl in
              omega (arith, occurrences-append h ready (c ∷ []), alone, m.once h)
        ];
        free = λ h there. elim (Bool-cases (str_eq c h)) [
          | inl same ↦ lowered h ∙ (rw (same, last) refl)
          | inr apart ↦
              let alone : occurrences h (c ∷ []) ≡ 0 = rw apart refl in
              free' h (omega (arith, occurrences-append h ready (c ∷ []), alone, there))
        ];
        waiting = waiting';
      }

    -- One turn of the loop over the children, when the turns behind it keep the state.
    release_turn :
        ((indegree : Map ℕ) (ready : List Str)
          → IsMiddle left cs indegree ready
          → IsMiddle left [] (release cs indegree ready).0 (release cs indegree ready).1)
        → (entry : Option ℕ) → get c indegree ≡ entry
        → (let p : Map ℕ × List Str = elim entry [
          | none ↦ release cs indegree ready
          | some e ↦
              release cs
                (insert c (decrement e) indegree)
                (if decrement e == 0 then ready ++ (c ∷ []) else ready)
        ] in
            IsMiddle left [] p.0 p.1)
    release_turn rest none gone = rest indegree ready (release_missing gone)
    release_turn rest (some zero) here =
        absurd (omega (arith, m.counted c 0 here, occurrences_self c cs))
    release_turn rest (some (suc d)) here = elim (Bool-cases (d == 0)) [
      | inl last ↦ rw last (
          rest (insert c d indegree) (ready ++ (c ∷ [])) (release_now d here ((==_iff d 0).0 last)))
      | inr more ↦ rw more (rest (insert c d indegree) ready (release_later d here))
    ]

  -- The loop over the children keeps the state, and no number is lowered below zero.
  pub release-IsMiddle :
      (left cs : List Str) (indegree : Map ℕ) (ready : List Str)
      → IsMiddle left cs indegree ready
      → IsMiddle left [] (release cs indegree ready).0 (release cs indegree ready).1
  unfolding release
  release-IsMiddle left [] indegree ready m = m
  release-IsMiddle left (c ∷ cs) indegree ready m =
      release_turn left c cs indegree ready m (release-IsMiddle left cs) (get c indegree) refl

  -- The nodes are taken each after all of the given ones that it is a child of.
  abbrev pub IsTopological : List Str → List Str → Type 0
  IsTopological left [] = Unit
  IsTopological left (n ∷ nodes) =
      (1 ≤ occurrences n left) × (pending n left ≡ 0) × IsTopological (remove n left) nodes

  -- A ready node is taken and its children are released.
  pub take-IsMiddle :
      (order : Str → Str → Ordering) (left : List Str) (n : Str) (indegree : Map ℕ)
      (ready : List Str)
      → IsMiddle left [] indegree (n ∷ ready)
      → IsMiddle (remove n left) (sort_by order (children_of children n)) indegree ready
  take-IsMiddle order left n indegree ready m =
      let there : 1 ≤ occurrences n left = omega (arith, m.once n, occurrences_self n ready) in
      let free : get n indegree ≡ some 0 = m.free n (omega (arith, occurrences_self n ready)) in
      record {
        counted = λ h d found. omega (
          arith,
          m.counted h d found,
          pending-remove h n left there,
          occurrences-sort_by order h (children_of children n),
        );
        once = λ h. elim (Bool-cases (str_eq n h)) [
          | inl same ↦ rw (sym ((str_eq_iff n h).0 same)) (
              omega
                (arith, m.once n, occurrences_self n ready, occurrences-remove_self n left there))
          | inr apart ↦
              let skip : occurrences h (n ∷ ready) ≡ occurrences h ready = rw apart refl in
              omega (arith, m.once h, skip, occurrences-remove_other n h left apart)
        ];
        free = λ h found. m.free h (ground (arith, found));
        waiting = λ h d found positive. elim (Bool-cases (str_eq n h)) [
          | inl same ↦
              absurd (let at = (str_eq_iff n h).0 same in ground (arith, found, free, at, positive))
          | inr apart ↦
              omega (arith, m.waiting h d found positive, occurrences-remove_other n h left apart)
        ];
      }
