-- ===== src/Store/LegacySweep.antt =====
-- rescue_sweep.py and rescue_index.py: the legacy indexes as the dictionaries that `BlobEntry` and `SessionIndex`
-- declare, and their sweep. An index file is the index that it holds; errors of the file system are not
-- modelled.
use tokenjuice_hermes.Common.{
  Text, codes, grouped_text, ℕ, ◌-◌, ◌*◌, ◌≡◌, ◌<◌, refl, Bool, true, false, ◌&&◌, ◌||◌, not,
  Option, none, some, List, [], ◌∷◌, ◌++◌, Dict, get, put, remove, any, keep, map, length, leb, ltb,
  ◌==◌, sort_by, insert, sum_by, if◌then◌else◌, arith, ap, sum_by-sort_by, get-remove, text_eq_refl,
  text_eq_iff, mem_text, ◌∙◌, text_eq, Bool-cases, inl, inr,
}
use tokenjuice_hermes.Store.Handles.{Bytes, is_valid_handle}

-- `BlobEntry`, where a missing key is `none`
pub record BlobEntry : Type 0 where
  pub t : Option ℕ
  pub swept_at : Option ℕ
  pub tool : Option Text
  pub size : Option ℕ
  pub hash : Option Text

-- The entries of an index, by handle, and the index files, sorted by name.
abbrev pub SessionIndex : Type 0
SessionIndex = Dict BlobEntry

abbrev pub or_zero : Option ℕ → ℕ
or_zero none = 0
or_zero (some n) = n

abbrev has {ℓ} : {A : Type ℓ} → Option A → Bool
has none = false
has (some a) = true

-- `is_live`
abbrev pub is_live : BlobEntry → Bool
is_live entry = not (has entry.swept_at)

-- `entry and is_live(entry)`: an entry without keys is no entry.
abbrev pub is_live_entry : BlobEntry → Bool
is_live_entry entry =
    (has entry.t || has entry.tool || has entry.size || has entry.hash) && is_live entry

-- The tombstone of an entry.
abbrev pub tombstone_of : ℕ → BlobEntry → BlobEntry
tombstone_of now entry = record {
  t = none;
  swept_at = some now;
  tool = elim entry.tool [ none ↦ some [] | some tool ↦ some tool ];
  size = some (or_zero entry.size);
  hash = none;
}

-- What `sweep_by_ttl` makes of an entry, `none` where it is deleted.
unfoldable pub swept_entry : ℕ → ℕ → ℕ → BlobEntry → Option BlobEntry
swept_entry now ttl tomb_ttl entry =
    if not (is_live entry)
    then if ltb tomb_ttl (now - or_zero entry.swept_at) then none else some entry
    else if ltb ttl (now - or_zero entry.t)
    then some (tombstone_of now entry)
    else some entry

unfoldable pub swept_index : ℕ → ℕ → ℕ → SessionIndex → SessionIndex
unfolding swept_entry
swept_index now ttl tomb_ttl [] = []
swept_index now ttl tomb_ttl ((handle, entry) ∷ blobs) =
    let rest = swept_index now ttl tomb_ttl blobs in
    elim (swept_entry now ttl tomb_ttl entry) [ none ↦ rest | some e ↦ (handle, e) ∷ rest ]

-- `any_live_refs`
unfoldable pub any_live_refs : Text → Dict SessionIndex → Bool
unfolding any get
any_live_refs handle indexes =
    any (λ index. elim (get handle index.1) [ none ↦ false | some entry ↦ is_live_entry entry ])
      indexes

-- The state: the index files, and the files of the blob directory with their times.
pub record LegacyState : Type 0 where
  pub indexes : Dict SessionIndex
  pub blobs : Dict (ℕ × Bytes)

-- `sweep_by_ttl`
unfoldable pub sweep_by_ttl : ℕ → ℕ → ℕ → LegacyState → LegacyState
unfolding swept_index any_live_refs keep is_valid_handle
sweep_by_ttl now ttl tomb_ttl s =
    let indexes = map (λ index. (index.0, swept_index now ttl tomb_ttl index.1)) s.indexes in
    record {
      indexes = indexes;
      blobs =
          keep (λ blob. not (is_valid_handle blob.0 && not (any_live_refs blob.0 indexes))) s.blobs;
    }

-- `tombstone_everywhere`
unfoldable pub tombstone_everywhere : Text → ℕ → Dict SessionIndex → Dict SessionIndex
unfolding get put
tombstone_everywhere handle now [] = []
tombstone_everywhere handle now ((name, index) ∷ indexes) =
    let rest = tombstone_everywhere handle now indexes in
    elim (get handle index) [
      | none ↦ (name, index) ∷ rest
      | some entry ↦
          if is_live_entry entry
          then (name, put handle (tombstone_of now entry) index) ∷ rest
          else (name, index) ∷ rest
    ]

-- The size of a file, as `bf.stat().st_size if bf.exists() else 0` has it.
unfoldable pub size_of : Text → Dict (ℕ × Bytes) → ℕ
unfolding get
size_of handle blobs = elim (get handle blobs) [ none ↦ 0 | some (time, raw) ↦ length raw ]

-- The loop of `sweep_by_size` over the files, the oldest first.
unfoldable pub give_up : ℕ → ℕ → ℕ → List Text → LegacyState → LegacyState
give_up now max_bytes total [] s = s
give_up now max_bytes total (handle ∷ handles) s =
    let left : LegacyState = record {
      indexes = tombstone_everywhere handle now s.indexes;
      blobs = remove handle s.blobs;
    } in
    let rest = give_up now max_bytes (total - size_of handle left.blobs) handles left in
    if leb total max_bytes then s else rest

-- `all_blobs.sort()` by time and then by size; names that agree in both keep their order here
abbrev older : Text × (ℕ × Bytes) → Text × (ℕ × Bytes) → Bool
older (h, (t, a)) (k, (u, b)) = ltb t u || t == u && leb (length a) (length b)

-- `sweep_by_size`
unfoldable pub sweep_by_size : ℕ → ℕ → LegacyState → LegacyState
unfolding keep sort_by sum_by
sweep_by_size now max_mb s =
    let all_blobs = sort_by older (keep (λ blob. is_valid_handle blob.0) s.blobs) in
    give_up now (max_mb * 1024 * 1024) (sum_by (λ blob. length blob.1.1) all_blobs)
      (map (λ blob. blob.0) all_blobs) s

-- `find_meta`, in the session's index first, where there is one
unfoldable pub find_meta : Text → List SessionIndex → Option BlobEntry
unfolding get
find_meta handle [] = none
find_meta handle (index ∷ indexes) =
    let rest = find_meta handle indexes in
    elim (get handle index) [
      | none ↦ rest
      | some entry ↦ if is_live_entry entry then some entry else rest
    ]

-- `tombstone_message`, for the session's index
unfoldable pub tombstone_message : Text → SessionIndex → Option Text
unfolding get grouped_text
tombstone_message handle index = elim (get handle index) [
  | none ↦ none
  | some entry ↦
      if is_live entry
      then none
      else let tool : Text = elim entry.tool [
        | none ↦ codes "the source tool"
        | some tool ↦ tool
      ] in
        some (
          codes "[Swept] Handle "
          ++ (handle
              ++ (codes " (from "
                  ++ (tool
                      ++ (codes ", "
                          ++ (grouped_text (or_zero entry.size)
                              ++ (codes " chars) expired after the retention window. Re-run "
                                  ++ (tool ++ codes " to regenerate it."))))))))
]

-- A blob without a file is as large as no file.
size_of-remove :
    (handle : Text) (blobs : Dict (ℕ × Bytes)) → size_of handle (remove handle blobs) ≡ 0
unfolding size_of
size_of-remove handle blobs =
    let gone : get handle (remove handle blobs) ≡ none =
      get-remove handle handle blobs ∙ (let same = text_eq_refl handle in rw same refl) in
    rw (gone, size_of) refl

-- The total does not change, as the file is gone when it is asked for its size.
give_up_step :
    (now max_bytes total : ℕ) (handle : Text) (handles : List Text) (s : LegacyState)
    → max_bytes < total
    → give_up now max_bytes total (handle ∷ handles) s
      ≡ give_up now max_bytes total handles (record {
        indexes = tombstone_everywhere handle now s.indexes;
        blobs = remove handle s.blobs;
      })
give_up_step now max_bytes total handle handles s over =
    let more : leb total max_bytes ≡ false = ground (arith, over) in
    let same : total - size_of handle (remove handle s.blobs) ≡ total =
      omega (arith, size_of-remove handle s.blobs) in
    unfold give_up in rw (more, give_up) (rw same refl)

-- Once the store is over its limit, the sweep gives up every blob, however small the excess is.
pub give_up_all :
    (now max_bytes total : ℕ) (handles : List Text) (s : LegacyState) (handle : Text)
    → max_bytes < total
    → get handle (give_up now max_bytes total handles s).blobs
      ≡ (if mem_text handle handles then none else get handle s.blobs)
give_up_all now max_bytes total [] s handle over = unfold give_up mem_text in refl
give_up_all now max_bytes total (h ∷ handles) s handle over =
    let left : LegacyState = record {
      indexes = tombstone_everywhere h now s.indexes;
      blobs = remove h s.blobs;
    } in
    let same : give_up now max_bytes total (h ∷ handles) s
        ≡ give_up now max_bytes total handles left =
      give_up_step now max_bytes total h handles s over in
    let rest = give_up_all now max_bytes total handles left handle over in
    let gone = get-remove h handle s.blobs in
    rw same
      (rest ∙ (unfold mem_text in ground (arith, gone, text_eq_iff h handle, text_eq_iff handle h)))

-- The names of the files, whatever their order.
names : List (Text × (ℕ × Bytes)) → List Text
names blobs = map (λ blob. blob.0) blobs

mem_text-insert :
    (handle : Text) (x : Text × (ℕ × Bytes)) (xs : List (Text × (ℕ × Bytes)))
    → mem_text handle (names (insert older x xs))
      ≡ (text_eq handle x.0 || mem_text handle (names xs))
unfolding names mem_text insert
mem_text-insert handle x [] = refl
mem_text-insert handle x (y ∷ xs) = elim (Bool-cases (older x y)) [
  | inl e ↦ rw (e, insert) refl
  | inr e ↦ let rest = mem_text-insert handle x xs in rw (e, insert) (ground (arith, rest))
]

mem_text-sort_by :
    (handle : Text) (xs : List (Text × (ℕ × Bytes)))
    → mem_text handle (names (sort_by older xs)) ≡ mem_text handle (names xs)
unfolding sort_by
mem_text-sort_by handle [] = refl
mem_text-sort_by handle (x ∷ xs) =
    mem_text-insert handle x (sort_by older xs)
    ∙ (ap (λ b. text_eq handle x.0 || b) (mem_text-sort_by handle xs)
        ∙ (unfold names mem_text in refl))

mem_text-keep :
    (handle : Text) (blobs : Dict (ℕ × Bytes))
    → mem_text handle (names (keep (λ blob. is_valid_handle blob.0) blobs)) ≡ true
    → is_valid_handle handle ≡ true
unfolding names mem_text keep
mem_text-keep handle [] h = absurd (ground (arith, h))
mem_text-keep handle ((name, file) ∷ blobs) h = elim (Bool-cases (is_valid_handle name)) [
  | inr v ↦ mem_text-keep handle blobs (rw (v, keep) at h)
  | inl v ↦ elim (Bool-cases (text_eq handle name)) [
    | inl e ↦
        let one = text_eq_iff handle name in
        let same : handle ≡ name = ground (arith, e, one) in rw same v
    | inr e ↦
        let later : mem_text handle (names (keep (λ blob. is_valid_handle blob.0) blobs)) ≡ true =
          ground (arith, v, e, h) in
        mem_text-keep handle blobs later
  ]
]

-- A name in the list of the valid ones is valid and there.
mem_text-valid :
    (handle : Text) (blobs : Dict (ℕ × Bytes))
    → (if mem_text handle (names (keep (λ blob. is_valid_handle blob.0) blobs))
        then none
        else get handle blobs)
      ≡ (if is_valid_handle handle then none else get handle blobs)
unfolding names mem_text keep get
mem_text-valid handle [] = ground arith
mem_text-valid handle ((name, file) ∷ blobs) =
    let rest = mem_text-valid handle blobs in
    let one = text_eq_iff handle name in
    let other = text_eq_iff name handle in
    elim (Bool-cases (text_eq name handle)) [
      | inl e ↦
          let same : name ≡ handle = ground (arith, e, other) in
          let there : text_eq handle name ≡ true = ground (arith, same, one) in
          let valid = ap is_valid_handle same in
          let back = mem_text-keep handle blobs in ground (arith, e, there, valid, rest, back)
      | inr e ↦
          let away : text_eq handle name ≡ false = ground (arith, e, one, other) in
          ground (arith, e, away, rest)
    ]

abbrev pub sizes : Dict (ℕ × Bytes) → ℕ
sizes blobs = sum_by (λ blob. length blob.1.1) (keep (λ blob. is_valid_handle blob.0) blobs)

-- Once the valid blobs are larger than the limit together, the sweep by size unlinks every one of them,
-- however small the excess is, and leaves the other files alone.
pub sweep_by_size_all :
    (now max_mb : ℕ) (s : LegacyState) (handle : Text)
    → max_mb * 1024 * 1024 < sizes s.blobs
    → get handle (sweep_by_size now max_mb s).blobs
      ≡ (if is_valid_handle handle then none else get handle s.blobs)
sweep_by_size_all now max_mb s handle over =
    let kept = keep (λ blob. is_valid_handle blob.0) s.blobs in
    let all_blobs = sort_by older kept in
    let total = sum_by (λ blob. length blob.1.1) all_blobs in
    let large : max_mb * 1024 * 1024 < total =
      rw (sum_by-sort_by older (λ blob. length blob.1.1) kept) over in
    let swept = give_up_all now (max_mb * 1024 * 1024) total (names all_blobs) s handle large in
    let same = mem_text-sort_by handle kept in
    let answer = mem_text-valid handle s.blobs in
    unfold sweep_by_size names in cc (swept, same, answer)
