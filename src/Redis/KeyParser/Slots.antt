-- ===== src/Redis/KeyParser/Slots.antt =====
-- The slots of redis cluster that `calc_slot` gives to keys.
use cubetran_core.Prelude.{
  All, List, Option, [], arith, false, list_eq, nat_eq, none, option_eq, pair_eq, refl, some, sym,
  ℕ, ◌++◌, ◌==◌, ◌∙◌, ◌∷◌, ◌≡◌, ◌≢◌, ◌≤◌,
}
use cubetran_core.Redis.Crc.{bit_and-≤, crc16}
use cubetran_core.Redis.KeyParser.{calc_slot, hash_tag, slot_of, tagged_slot, up_to_close}

-- no '}' and no '{'
abbrev pub NoClose : List ℕ → Type 0
NoClose = All (λ b. b ≢ 125)

abbrev pub NoOpen : List ℕ → Type 0
NoOpen = All (λ b. b ≢ 123)

up_to_close_lem : (tag post : List ℕ) → NoClose tag → up_to_close (tag ++ 125 ∷ post) ≡ some tag
unfolding up_to_close
up_to_close_lem [] post h = refl
up_to_close_lem (b ∷ tag) post (hb, h) =
    let other : (b == 125) ≡ false = ground arith in rw (other, up_to_close_lem tag post h) refl

hash_tag_lem :
    (pre tag post : List ℕ)
    → NoOpen pre
    → NoClose tag
    → hash_tag (pre ++ 123 ∷ (tag ++ 125 ∷ post)) ≡ some tag
unfolding hash_tag
hash_tag_lem [] tag post hp ht = rw (up_to_close_lem tag post ht) refl
hash_tag_lem (b ∷ pre) tag post (hb, hp) ht =
    let other : (b == 123) ≡ false = ground arith in rw other (hash_tag_lem pre tag post hp ht)

-- Every key has one of the 16384 slots.
pub calc_slot-≤ : (key : List ℕ) → calc_slot key ≤ 16383
unfolding calc_slot slot_of
calc_slot-≤ key = bound (hash_tag key)
  where
    bound : (tag : Option (List ℕ)) → tagged_slot tag key ≤ 16383
    bound none = bit_and-≤ (crc16 key) 0x3fff
    bound (some []) = bit_and-≤ (crc16 key) 0x3fff
    bound (some (b ∷ tag)) = bit_and-≤ (crc16 (b ∷ tag)) 0x3fff

tagged :
    (pre tag post : List ℕ)
    → tag ≢ []
    → NoOpen pre
    → NoClose tag
    → calc_slot (pre ++ 123 ∷ (tag ++ 125 ∷ post)) ≡ slot_of tag
unfolding calc_slot
tagged pre [] post full hp ht = absurd (full refl)
tagged pre (b ∷ tag) post full hp ht = rw (hash_tag_lem pre (b ∷ tag) post hp ht) refl

no_tag : (key : List ℕ) → NoOpen key → hash_tag key ≡ none
unfolding hash_tag
no_tag [] h = refl
no_tag (b ∷ key) (hb, h) = let other : (b == 123) ≡ false = ground arith in rw other (no_tag key h)

untagged :
    (pre post : List ℕ)
    → NoOpen pre
    → calc_slot (pre ++ 123 ∷ 125 ∷ post) ≡ slot_of (pre ++ 123 ∷ 125 ∷ post)
unfolding calc_slot
untagged pre post hp = rw (hash_tag_lem pre [] post hp tt) refl

-- The hash tag of a key is what stands between its first '{' and the first '}' after that; there may
-- be other braces '{' in it. When it is not empty, the slot of the key is that of the bytes of the
-- tag, so that keys with one tag have one slot, whatever stands before and after it. A key with an
-- empty tag and a key without a '{' have the slot of all their bytes.
pub calc_slot-tag :
    (pre tag post pre' post' plain : List ℕ)
    → tag ≢ []
    → NoOpen pre
    → NoOpen pre'
    → NoClose tag
    → NoOpen plain
    → (calc_slot (pre ++ 123 ∷ (tag ++ 125 ∷ post))
        ≡ calc_slot (pre' ++ 123 ∷ (tag ++ 125 ∷ post')))
      × (calc_slot (pre ++ 123 ∷ (tag ++ 125 ∷ post)) ≡ slot_of tag)
      × (calc_slot (pre ++ 123 ∷ 125 ∷ post) ≡ slot_of (pre ++ 123 ∷ 125 ∷ post))
      × (calc_slot plain ≡ slot_of plain)
calc_slot-tag pre tag post pre' post' plain full hp hp' ht ho = (
  tagged pre tag post full hp ht ∙ sym (tagged pre' tag post' full hp' ht),
  tagged pre tag post full hp ht,
  untagged pre post hp,
  unfold calc_slot in rw (no_tag plain ho) refl,
)
