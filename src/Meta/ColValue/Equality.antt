-- ===== src/Meta/ColValue/Equality.antt =====
-- The derived equality of values: on values that are no floats and no documents it is equality.
use cubetran_core.Prelude.{
  ==_iff, Bool, Eq, and-true, ap, ap₂, arith, false, if◌then◌else◌, list_beq_refl, list_beq_sound,
  list_eq, nat_eq, negsuc, option_eq, pair_eq, pos, refl, sym, true, ℕ, ◌&&◌, ◌==◌, ◌↔◌, ◌∙◌, ◌≟◌,
  ◌≡◌,
}
use cubetran_core.Meta.ColValue.{
  ColValue, Payload, bytes, discriminant, document, eq, flag, int, nat, nothing, payload,
  payload_eq, real, single,
}

-- Neither a float nor a document: the values on which `PartialEq` is reflexive and respects the printed form.
unfoldable pub is_exact : ColValue → Bool
is_exact (ColValue.float v) = false
is_exact (ColValue.double v) = false
is_exact (ColValue.json3 v) = false
is_exact (ColValue.mongo_doc v) = false
is_exact _ = true

rebuild : ℕ → Payload → ColValue
rebuild d nothing = ColValue.none
rebuild d (flag v) = ColValue.bool v
rebuild d (int v) =
    if d == 2
    then ColValue.tiny v
    else if d == 4
    then ColValue.short v
    else if d == 6
    then ColValue.long v
    else ColValue.long_long v
rebuild d (nat v) =
    if d == 3
    then ColValue.unsigned_tiny v
    else if d == 5
    then ColValue.unsigned_short v
    else if d == 7
    then ColValue.unsigned_long v
    else if d == 9
    then ColValue.unsigned_long_long v
    else if d == 17
    then ColValue.year v
    else if d == 21
    then ColValue.bit v
    else if d == 22
    then ColValue.set v
    else ColValue.enum v
rebuild d (single v) = ColValue.float v
rebuild d (real v) = ColValue.double v
rebuild d (bytes v) =
    if d == 12
    then ColValue.decimal v
    else if d == 13
    then ColValue.time v
    else if d == 14
    then ColValue.date v
    else if d == 15
    then ColValue.date_time v
    else if d == 16
    then ColValue.timestamp v
    else if d == 18
    then ColValue.string v
    else if d == 19
    then ColValue.raw_string v
    else if d == 20
    then ColValue.blob v
    else if d == 24
    then ColValue.set2 v
    else if d == 25
    then ColValue.enum2 v
    else if d == 26
    then ColValue.json v
    else ColValue.json2 v
rebuild d (document v) = if d == 28 then ColValue.json3 v else ColValue.mongo_doc v

rebuild-payload : (v : ColValue) → rebuild (discriminant v) (payload v) ≡ v
unfolding rebuild discriminant payload
rebuild-payload ColValue.none = refl
rebuild-payload _ = refl

exact_payload : Payload → Bool
exact_payload (single v) = false
exact_payload (real v) = false
exact_payload (document v) = false
exact_payload _ = true

is_exact-payload : (v : ColValue) → is_exact v ≡ true → exact_payload (payload v) ≡ true
unfolding is_exact exact_payload payload
is_exact-payload (ColValue.float v) h = h
is_exact-payload (ColValue.double v) h = h
is_exact-payload (ColValue.json3 v) h = h
is_exact-payload (ColValue.mongo_doc v) h = h
is_exact-payload _ h = refl

payload_eq_sound : (p q : Payload) → exact_payload p ≡ true → payload_eq p q ≡ true → p ≡ q
unfolding payload_eq exact_payload
payload_eq_sound nothing nothing e h = refl
payload_eq_sound (flag true) (flag b) e h = ap flag (sym h)
payload_eq_sound (flag false) (flag b) e h = ground arith
payload_eq_sound (int (pos a)) (int (pos b)) e h = ground arith
payload_eq_sound (int (negsuc a)) (int (negsuc b)) e h = ground arith
payload_eq_sound (nat a) (nat b) e h = ground arith
payload_eq_sound (bytes a) (bytes b) e h = ap bytes (list_beq_sound a b h)
payload_eq_sound (single a) _ e h = cc
payload_eq_sound (real a) _ e h = cc
payload_eq_sound (document a) _ e h = cc
payload_eq_sound _ _ e h = cc

payload_eq_refl : (p : Payload) → exact_payload p ≡ true → payload_eq p p ≡ true
unfolding payload_eq exact_payload
payload_eq_refl nothing e = refl
payload_eq_refl (flag true) e = refl
payload_eq_refl (flag false) e = refl
payload_eq_refl (int (pos a)) e = ground arith
payload_eq_refl (int (negsuc a)) e = ground arith
payload_eq_refl (nat a) e = ground arith
payload_eq_refl (single a) e = cc
payload_eq_refl (real a) e = cc
payload_eq_refl (document a) e = cc
payload_eq_refl (bytes a) e = list_beq_refl a

pub eq_sound : (a b : ColValue) → is_exact a ≡ true → eq a b ≡ true → a ≡ b
unfolding eq
eq_sound a b e h =
    let (d, p) =
      and-true (discriminant a == discriminant b) (payload_eq (payload a) (payload b)) h in
    sym (rebuild-payload a)
    ∙ ap₂ rebuild ((==_iff (discriminant a) (discriminant b)).0 d)
        (payload_eq_sound (payload a) (payload b) (is_exact-payload a e) p)
    ∙ rebuild-payload b

pub eq_refl : (a : ColValue) → is_exact a ≡ true → eq a a ≡ true
unfolding eq
eq_refl a e = ground (
  arith,
  payload_eq_refl (payload a) (is_exact-payload a e),
  (==_iff (discriminant a) (discriminant a)).1 refl,
)

-- Equality of values, floats compared by their bits and documents by all that they are: what the statements about keys use.
payload_same : Payload → Payload → Bool
payload_same (single a) (single b) = a == b
payload_same (real a) (real b) = a == b
payload_same (document a) (document b) = a.text ≟ b.text && (a.compared ≟ b.compared)
payload_same p q = exact_payload p && payload_eq p q

payload_same_sound : (p q : Payload) → payload_same p q ≡ true → p ≡ q
unfolding payload_same exact_payload
payload_same_sound (single a) (single b) h = ground arith
payload_same_sound (real a) (real b) h = ground arith
payload_same_sound (document a) (document b) h =
    let (t, c) = and-true (a.text ≟ b.text) (a.compared ≟ b.compared) h in
    let text : a.text ≡ b.text = (list_eq.beq_iff a.text b.text).0 t in
    let compared : a.compared ≡ b.compared = (option_eq.beq_iff a.compared b.compared).0 c in
    λ i. document (record { text = text i; compared = compared i })
payload_same_sound (single a) _ h = cc
payload_same_sound (real a) _ h = cc
payload_same_sound (document a) _ h = cc
payload_same_sound p q h =
    let (e, s) = and-true (exact_payload p) (payload_eq p q) h in payload_eq_sound p q e s

payload_same_refl : (p : Payload) → payload_same p p ≡ true
unfolding payload_same exact_payload
payload_same_refl (single a) = ground arith
payload_same_refl (real a) = ground arith
payload_same_refl (document a) =
    rw ((list_eq.beq_iff a.text a.text).1 refl, (option_eq.beq_iff a.compared a.compared).1 refl)
      refl
payload_same_refl nothing = rw (payload_eq_refl nothing refl)
payload_same_refl (flag a) = rw (payload_eq_refl (flag a) refl)
payload_same_refl (int a) = rw (payload_eq_refl (int a) refl)
payload_same_refl (nat a) = rw (payload_eq_refl (nat a) refl)
payload_same_refl (bytes a) = rw (payload_eq_refl (bytes a) refl)

pub same : ColValue → ColValue → Bool
same a b = discriminant a == discriminant b && payload_same (payload a) (payload b)

pub same_iff : (a b : ColValue) → (same a b ≡ true) ↔ (a ≡ b)
unfolding same
same_iff a b = (
  λ h.
      let (d, p) =
        and-true (discriminant a == discriminant b) (payload_same (payload a) (payload b)) h in
      sym (rebuild-payload a)
      ∙ ap₂ rebuild ((==_iff (discriminant a) (discriminant b)).0 d)
          (payload_same_sound (payload a) (payload b) p)
      ∙ rebuild-payload b,
  λ p. rw p (
      ground
        (arith, payload_same_refl (payload b), (==_iff (discriminant b) (discriminant b)).1 refl)),
)

instance abbrev pub value_eq : Eq ColValue
value_eq = record { beq = same; beq_iff = same_iff }
