-- ===== src/Redis/KeyParser/Laws.antt =====
-- What `parse_key_from_argv` and `calc_slot` return.
use mathlib.Core.List.{map-append}
use cubetran_core.Prelude.{
  IfOk, List, Option, Option-cases, Result, Text, [], ap, ap₂, arith, bind-IfOk, codes, err,
  err-IfOk, from-IfOk, get_elem?, if-IfOk, inl, inr, length, list_eq, ltb_ℤ, map, nat_eq, negsuc,
  none, ok, ok-IfOk, option_eq, pair_eq, panic, pos, pos_part, redis_cmd_error, refl, some, suc,
  sym, unwrap, zero, ℕ, ℤ, ◌++◌, ◌+ℤ◌, ◌-ℤ◌, ◌-◌, ◌==◌, ◌||◌, ◌∙◌, ◌∷◌, ◌≟◌, ◌≡◌, ◌⊎◌,
}
use cubetran_core.Redis.KeyParser.{
  Found, KeyParser, KeySpec, begin_of, cmd_meta_of, cmd_name_of, find_all, find_keynum, find_keys,
  find_range, parse_key_from_argv, parse_usize, push_key, push_keys, push_range,
}

abbrev key_at : List Text → ℕ → Option Text
key_at argv i = get_elem? argv (i - 1)

-- Each index, counted from 1, is that of the key beside it.
abbrev Matches : List Text → Found → Type 0
Matches argv found = map (key_at argv) found.keys_indexes ≡ map some found.keys

push_key-Matches :
    (argv : List Text) (idx : ℤ) (found : Found)
    → Matches argv found
    → IfOk (Matches argv) (push_key argv idx found)
unfolding push_key
push_key-Matches argv (negsuc _) found h = err-IfOk (Matches argv) panic
push_key-Matches argv (pos i) found h = at_index (Option-cases (get_elem? argv i))
  where
    at_index :
        (get_elem? argv i ≡ none) ⊎ ((key : Text) × (get_elem? argv i ≡ some key))
        → IfOk (Matches argv) (push_key argv (pos i) found)
    at_index (inl e) = rw (e, push_key) (err-IfOk (Matches argv) panic)
    at_index (inr (key, e)) =
        let same : suc i - 1 ≡ i = omega arith in
        rw (e, push_key)
          (ok-IfOk (Matches argv) _ (
            map-append (key_at argv) found.keys_indexes (suc i ∷ [])
            ∙ ap₂ ◌++◌ h (ap (λ o. o ∷ []) (ap (get_elem? argv) same ∙ e))
            ∙ sym (map-append some found.keys (key ∷ []))))

push_range-Matches :
    (argv : List Text) (n : ℕ) (idx : ℤ) (step : ℕ) (limit_count : ℤ) (found : Found)
    → Matches argv found
    → IfOk (Matches argv) (push_range argv n idx step limit_count found)
unfolding push_range
push_range-Matches argv zero idx step limit_count found h = ok-IfOk (Matches argv) found h
push_range-Matches argv (suc n) idx step limit_count found h =
    bind-IfOk (Matches argv) (Matches argv) (push_key argv idx found) _
      (push_key-Matches argv idx found h)
      λ found' h'.
        if-IfOk (Matches argv) _ _ _ (ok-IfOk (Matches argv) found' h')
          (push_range-Matches argv n (idx +ℤ pos step) step (limit_count -ℤ pos 1) found' h')

push_keys-Matches :
    (argv : List Text) (n : ℕ) (idx : ℤ) (step : ℕ) (found : Found)
    → Matches argv found
    → IfOk (Matches argv) (push_keys argv n idx step found)
unfolding push_keys
push_keys-Matches argv zero idx step found h = ok-IfOk (Matches argv) found h
push_keys-Matches argv (suc n) idx step found h =
    bind-IfOk (Matches argv) (Matches argv) (push_key argv idx found) _
      (push_key-Matches argv idx found h)
      λ found' h'. push_keys-Matches argv n (idx +ℤ pos step) step found' h'

abbrev Any {ℓ} : {A : Type ℓ} → A → Type 0
Any a = Unit

-- a value of which nothing is known
trivially {ℓ} : {A : Type ℓ} (m : Result A) → IfOk Any m
trivially (err e) = err-IfOk Any e
trivially (ok a) = ok-IfOk Any a tt

find_range-Matches :
    (spec : KeySpec) (argv : List Text) (begin : ℤ) (found : Found)
    → Matches argv found
    → IfOk (Matches argv) (find_range spec argv begin found)
unfolding find_range
find_range-Matches spec argv begin found h =
    if-IfOk (Matches argv) (spec.find_keys_range_key_step == 0) (err panic)
      (push_range argv _ begin _ _ found) (err-IfOk (Matches argv) panic)
      (push_range-Matches argv _ begin _ _ found h)

find_keynum-Matches :
    (spec : KeySpec) (argv : List Text) (begin : ℤ) (found : Found)
    → Matches argv found
    → IfOk (Matches argv) (find_keynum spec argv begin found)
unfolding find_keynum
find_keynum-Matches spec argv begin found h =
    let keynum_idx = begin +ℤ spec.find_keys_keynum_index in
    let first = begin +ℤ spec.find_keys_keynum_first_key in
    let step = spec.find_keys_keynum_key_step in
    if-IfOk (Matches argv) (ltb_ℤ keynum_idx (pos 0) || ltb_ℤ (pos (length argv)) keynum_idx)
      (err redis_cmd_error) _ (err-IfOk (Matches argv) redis_cmd_error)
      (bind-IfOk Any (Matches argv) (unwrap (get_elem? argv (pos_part keynum_idx))) _ (trivially _)
        λ text _.
          bind-IfOk Any (Matches argv) (unwrap (parse_usize text)) _ (trivially _) λ count _.
            if-IfOk (Matches argv) (step == 0) (err panic) (push_keys argv count first step found)
              (err-IfOk (Matches argv) panic) (push_keys-Matches argv count first step found h))

find_keys-Matches :
    (spec : KeySpec) (argv : List Text) (begin : ℤ) (found : Found)
    → Matches argv found
    → IfOk (Matches argv) (find_keys spec argv begin found)
unfolding find_keys
find_keys-Matches spec argv begin found h =
    if-IfOk (Matches argv) (spec.find_keys_type ≟ codes "range") (find_range spec argv begin found)
      _ (find_range-Matches spec argv begin found h)
      (if-IfOk (Matches argv) (spec.find_keys_type ≟ codes "keynum")
        (find_keynum spec argv begin found) (err redis_cmd_error)
        (find_keynum-Matches spec argv begin found h) (err-IfOk (Matches argv) redis_cmd_error))

module _ (to_uppercase : Text → Text) where
  find_all-Matches :
      (specs : List KeySpec) (argv : List Text) (found : Found)
      → Matches argv found
      → IfOk (Matches argv) (find_all to_uppercase specs argv found)
  unfolding find_all
  find_all-Matches [] argv found h = ok-IfOk (Matches argv) found h
  find_all-Matches (spec ∷ specs) argv found h =
      bind-IfOk Any (Matches argv) _ _ (trivially (begin_of to_uppercase spec argv)) λ begin _.
        bind-IfOk (Matches argv) (Matches argv) _ _ (find_keys-Matches spec argv begin found h)
          λ found' h'. find_all-Matches specs argv found' h'

  Agree : List Text → Text × Text × List Text × List ℕ → Type 0
  Agree argv (name, group, keys, keys_indexes) = map (key_at argv) keys_indexes ≡ map some keys

  parse-Agree :
      (parser : KeyParser) (argv : List Text)
      → IfOk (Agree argv) (parse_key_from_argv to_uppercase parser argv)
  unfolding parse_key_from_argv Agree
  parse-Agree parser argv =
      bind-IfOk Any (Agree argv) _ _ (trivially (cmd_name_of to_uppercase parser argv)) λ name _.
        bind-IfOk Any (Agree argv) (cmd_meta_of parser name) _ (trivially _) λ cmd _.
          bind-IfOk (Matches argv) (Agree argv) _ _
            (find_all-Matches cmd.key_spec argv (record { keys = []; keys_indexes = [] }) refl)
            λ found h. ok-IfOk (Agree argv) _ h

  -- When the keys of a command are found, the indexes returned are those of the keys in the command,
  -- counted from 1, in the same order, whatever way of search its specs ask for.
  pub parse_key_from_argv-keys :
      (parser : KeyParser) (argv : List Text) (name group : Text) (keys : List Text)
      (keys_indexes : List ℕ)
      → parse_key_from_argv to_uppercase parser argv ≡ ok (name, group, keys, keys_indexes)
      → map (λ i. get_elem? argv (i - 1)) keys_indexes ≡ map some keys
  unfolding Agree
  parse_key_from_argv-keys parser argv name group keys keys_indexes e =
      from-IfOk (Agree argv) _ e (parse-Agree parser argv)
