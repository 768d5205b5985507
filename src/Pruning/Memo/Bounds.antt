-- ===== src/Pruning/Memo/Bounds.antt =====
-- structured_pruning_memo.py: the size of the memo, and its answer to a repeated request.
use tokenjuice_hermes.Common.{
  ℕ, zero, suc, ◌+◌, ◌-◌, ◌≤◌, max, ◌≡◌, ◌∙◌, refl, Option, none, some, [], ◌∷◌, ◌++◌, Text,
  text_eq, text_eq_iff, if◌then◌else◌, length, drop, length-append, length-drop, Dict, get,
  Option-cases, inl, inr, arith,
}
use tokenjuice_hermes.Pruning.Memo.{
  StructuredPruningMemo, without, move_to_end, evict, remember, reuse_or_compute,
}

module _ {R : Type 0} where
  -- The memo has at most `max(1, max_entries)` entries.
  abbrev pub IsBounded : StructuredPruningMemo R → Type 0
  IsBounded memo = length memo.results ≤ max 1 memo.max_entries

  length-without-le : (k : Text) (d : Dict R) → length (without k d) ≤ length d
  unfolding without
  length-without-le k [] = omega arith
  length-without-le k (e ∷ d) = ground (arith, length-without-le k d)

  -- Moving an entry that is there makes the memo no longer.
  length-without-present :
      (k : Text) (d : Dict R) (r : R) → get k d ≡ some r → length (without k d) + 1 ≤ length d
  unfolding without get
  length-without-present k [] r h = absurd (ground arith)
  length-without-present k (e ∷ d) r h =
      ground (arith, length-without-le k d, length-without-present k d r)

  length-evict-le : (limit : ℕ) (d : Dict R) → length (evict limit d) ≤ limit
  unfolding evict
  length-evict-le limit d = omega (arith, length-drop (length d - limit) d)

  get-append :
      (k j : Text) (r : R) (d : Dict R)
      → get k d ≡ none
      → get k (d ++ (j, r) ∷ []) ≡ (if text_eq j k then some r else none)
  unfolding get
  get-append k j r [] h = refl
  get-append k j r (e ∷ d) h = ground (arith, get-append k j r d)

  get-without : (k : Text) (d : Dict R) → get k (without k d) ≡ none
  unfolding without get
  get-without k [] = refl
  get-without k (e ∷ d) = ground (arith, get-without k d)

  -- The last entry survives every eviction that leaves one place.
  get-drop_last :
      (n : ℕ) (k : Text) (r : R) (d : Dict R)
      → get k d ≡ none
      → n ≤ length d
      → get k (drop n (d ++ (k, r) ∷ [])) ≡ some r
  unfolding get
  get-drop_last zero k r d h le = get-append k k r d h ∙ ground (arith, text_eq_iff k k)
  get-drop_last (suc n) k r [] h le = absurd (omega arith)
  get-drop_last (suc n) k r (e ∷ d) h le = get-drop_last n k r d (ground arith) (omega arith)

  -- A memo of at most `max(1, max_entries)` entries has at most so many after any call.
  pub reuse_or_compute-IsBounded :
      (key : Option Text) (computed : Option R) (memo : StructuredPruningMemo R)
      → IsBounded memo
      → IsBounded (reuse_or_compute key computed memo).1
  reuse_or_compute-IsBounded none computed memo h = unfold reuse_or_compute in h
  reuse_or_compute-IsBounded (some key) computed memo h =
      elim (Option-cases (get key memo.results)) [
        | inr (r, e) ↦
            let shorter = length-without-present key memo.results r e in
            let longer = length-append (without key memo.results) ((key, r) ∷ []) in
            unfold reuse_or_compute move_to_end in ground (arith, shorter, longer)
        | inl e ↦ missed computed e
      ]
    where
      missed :
          (o : Option R)
          → get key memo.results ≡ none
          → IsBounded (reuse_or_compute (some key) o memo).1
      missed none e = unfold reuse_or_compute remember in ground arith
      missed (some r) e =
          let bound = length-evict-le (max 1 memo.max_entries) (move_to_end key r memo.results) in
          unfold reuse_or_compute remember in ground (arith, bound)

  -- Keeping a result makes the next call with its key answer it.
  get-remember :
      (k : Text) (r : R) (memo : StructuredPruningMemo R)
      → get k (remember k (some r) memo).1.results ≡ some r
  unfolding remember move_to_end evict
  get-remember k r memo =
      let limit = max 1 memo.max_entries in
      let kept = without k memo.results in
      let entry : Dict R = (k, r) ∷ [] in
      get-drop_last (length (kept ++ entry) - limit) k r kept (get-without k memo.results)
        (omega (arith, length-append kept entry))

  get-moved : (k : Text) (r : R) (d : Dict R) → get k (move_to_end k r d) ≡ some r
  unfolding move_to_end
  get-moved k r d = get-drop_last 0 k r (without k d) (get-without k d) (omega arith)

  answers_kept :
      (k : Text) (later : Option R) (m : StructuredPruningMemo R) (r : R)
      → get k m.results ≡ some r
      → (reuse_or_compute (some k) later m).0 ≡ some r
  answers_kept k later m r h = unfold reuse_or_compute in ground arith

  hit_keeps :
      (k : Text) (computed : Option R) (memo : StructuredPruningMemo R) (c r : R)
      → get k memo.results ≡ some c
      → (reuse_or_compute (some k) computed memo).0 ≡ some r
      → get k (reuse_or_compute (some k) computed memo).1.results ≡ some r
  hit_keeps k computed memo c r e h =
      let moved = get-moved k c memo.results in unfold reuse_or_compute in ground (arith, moved)

  miss_keeps :
      (k : Text) (computed : Option R) (memo : StructuredPruningMemo R) (r : R)
      → get k memo.results ≡ none
      → (reuse_or_compute (some k) computed memo).0 ≡ some r
      → get k (reuse_or_compute (some k) computed memo).1.results ≡ some r
  miss_keeps k none memo r e h = absurd (unfold reuse_or_compute remember in ground arith)
  miss_keeps k (some x) memo r e h =
      let there = get-remember k x memo in unfold reuse_or_compute remember in ground (arith, there)

  keeps_answer :
      (k : Text) (computed : Option R) (memo : StructuredPruningMemo R) (r : R)
      → (reuse_or_compute (some k) computed memo).0 ≡ some r
      → get k (reuse_or_compute (some k) computed memo).1.results ≡ some r
  keeps_answer k computed memo r h = elim (Option-cases (get k memo.results)) [
    | inr (c, e) ↦ hit_keeps k computed memo c r e h
    | inl e ↦ miss_keeps k computed memo r e h
  ]

  -- When a call with a key gave a result, the next call with that key gives the same one,
  -- whatever would be computed by then.
  pub reuse_or_compute_again :
      (key : Text) (computed later : Option R) (memo : StructuredPruningMemo R) (r : R)
      → (reuse_or_compute (some key) computed memo).0 ≡ some r
      → (reuse_or_compute (some key) later (reuse_or_compute (some key) computed memo).1).0 ≡ some r
  reuse_or_compute_again key computed later memo r h =
      answers_kept key later (reuse_or_compute (some key) computed memo).1 r
        (keeps_answer key computed memo r h)
