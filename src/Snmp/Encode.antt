-- ===== src/Snmp/Encode.antt =====
-- What the writing functions of src/snmpbuilder.cpp leave in the memory.
use libmaycloud.Common.{
  ℕ, zero, suc, ◌+◌, ◌/◌, ◌^◌, ◌≤◌, ◌<◌, ◌≡◌, refl, sym, ap₂, subst, ◌∙◌, inl, inr, List, [], ◌∷◌,
  ◌++◌, map, arith, ◌==◌, ==_iff, Bool-cases, length, length-append,
}
use libmaycloud.Asn1.Oid.{
  Has, high_bytes, value_of_digits, AreDigits, item_bytes, items_bytes, AreItems,
}
use libmaycloud.Snmp.{Cursor, emit, digits, emit_high, emit_digits, save_oid_item, save_items}

-- Writing leaves the bytes behind the pointer, moves it behind them and keeps what is before.
pub record Writes (c : Cursor) (bs : List ℕ) (c' : Cursor) : Type 0 where
  pub bytes : Has c'.0 c.1 bs
  pub moved : c'.1 ≡ c.1 + length bs
  pub kept : (a : ℕ) → a < c.1 → c'.0 a ≡ c.0 a

pub Has-same :
    (m m' : ℕ → ℕ) (p : ℕ) (bs : List ℕ)
    → Has m p bs
    → ((a : ℕ) → p ≤ a → a < p + length bs → m' a ≡ m a)
    → Has m' p bs
Has-same m m' p [] h k = tt
Has-same m m' p (b ∷ bs) h k = (
  k p (omega arith) (omega arith) ∙ h.0,
  Has-same m m' (p + 1) bs h.1 (λ a l g. k a (omega arith) (omega arith)),
)

pub Has-join :
    (m : ℕ → ℕ) (p : ℕ) (xs ys : List ℕ)
    → Has m p xs
    → Has m (p + length xs) ys
    → Has m p (xs ++ ys)
Has-join m p [] ys h g = subst (λ q. Has m q ys) (omega arith) g
Has-join m p (x ∷ xs) ys h g =
    (h.0, Has-join m (p + 1) xs ys h.1 (subst (λ q. Has m q ys) (omega arith) g))

pub Writes-nil : (c : Cursor) → Writes c [] c
Writes-nil c = record { bytes = tt; moved = omega arith; kept = λ a l. refl }

pub Writes-append :
    (c d e : Cursor) (xs ys : List ℕ) → Writes c xs d → Writes d ys e → Writes c (xs ++ ys) e
Writes-append c d e xs ys v w = record {
  bytes =
      Has-join e.0 c.1 xs ys
        (Has-same d.0 e.0 c.1 xs v.bytes (λ a l g. w.kept a (omega (arith, v.moved))))
        (subst (λ q. Has e.0 q ys) v.moved w.bytes);
  moved = omega (arith, v.moved, w.moved, length-append xs ys);
  kept = λ a l. w.kept a (omega (arith, v.moved)) ∙ v.kept a l;
}

pub Writes-emit : (b : ℕ) (c : Cursor) → b < 256 → Writes c (b ∷ []) (emit b c)
Writes-emit b c l = record {
  bytes = (ground arith, tt);
  moved = omega arith;
  kept = λ a h. ground arith;
}

-- The digits to the base 128 are digits, and stand for the number.
AreDigits-digits : (fuel v : ℕ) → AreDigits (digits fuel v)
unfolding digits
AreDigits-digits zero v = tt
AreDigits-digits (suc fuel) v = elim (Bool-cases (v == 0)) [
  | inl e ↦ rw e tt
  | inr e ↦ rw e (omega arith, AreDigits-digits fuel (v / 128))
]

value_of_digits-digits : (fuel v : ℕ) → v < 128 ^ fuel → value_of_digits (digits fuel v) ≡ v
unfolding digits
value_of_digits-digits zero v l = omega arith
value_of_digits-digits (suc fuel) v l = elim (Bool-cases (v == 0)) [
  | inl e ↦ rw e (sym ((==_iff v 0).0 e))
  | inr e ↦
      let q : v / 128 < 128 ^ fuel = omega arith in
      rw (e, value_of_digits-digits fuel (v / 128) q) (omega arith)
]

emit_high-Writes :
    (ds : List ℕ) (c : Cursor) → AreDigits ds → Writes c (high_bytes ds) (emit_high ds c)
unfolding emit_high
emit_high-Writes [] c a = Writes-nil c
emit_high-Writes (d ∷ ds) c a =
    Writes-append c (emit_high ds c) _ (high_bytes ds) ((d + 128) ∷ []) (emit_high-Writes ds c a.1)
      (Writes-emit (d + 128) (emit_high ds c) (omega (arith, a.0)))

emit_digits-Writes :
    (ds : List ℕ) (c : Cursor) → AreDigits ds → Writes c (item_bytes ds) (emit_digits ds c)
unfolding emit_digits
emit_digits-Writes [] c a = Writes-emit 0 c (omega arith)
emit_digits-Writes (d ∷ ds) c a =
    Writes-append c (emit_high ds c) _ (high_bytes ds) (d ∷ []) (emit_high-Writes ds c a.1)
      (Writes-emit d (emit_high ds c) (omega (arith, a.0)))

pub save_oid_item-Writes :
    (v : ℕ) (c : Cursor) → Writes c (item_bytes (digits 8 v)) (save_oid_item v c)
unfolding save_oid_item
save_oid_item-Writes v c = emit_digits-Writes (digits 8 v) c (AreDigits-digits 8 v)

pub save_items-Writes :
    (vs : List ℕ) (c : Cursor) → Writes c (items_bytes (map (digits 8) vs)) (save_items vs c)
unfolding save_items
save_items-Writes [] c = Writes-nil c
save_items-Writes (v ∷ vs) c =
    Writes-append c (save_oid_item v c) _ _ _ (save_oid_item-Writes v c)
      (save_items-Writes vs (save_oid_item v c))

-- Numbers that an int holds.
abbrev pub AreInts : List ℕ → Type 0
AreInts [] = Unit
AreInts (v ∷ vs) = (v < 2 ^ 31) × AreInts vs

pub digits-int : (v : ℕ) → v < 2 ^ 31 → AreDigits (digits 8 v) × (value_of_digits (digits 8 v) ≡ v)
digits-int v l = (AreDigits-digits 8 v, value_of_digits-digits 8 v (omega arith))

pub AreItems-digits : (vs : List ℕ) → AreInts vs → AreItems (map (digits 8) vs)
AreItems-digits [] a = tt
AreItems-digits (v ∷ vs) a =
    let r = digits-int v a.0 in (r.0, omega (arith, r.1, a.0), AreItems-digits vs a.1)

pub values-digits : (vs : List ℕ) → AreInts vs → map value_of_digits (map (digits 8) vs) ≡ vs
values-digits [] a = refl
values-digits (v ∷ vs) a = ap₂ (λ x xs. x ∷ xs) (digits-int v a.0).1 (values-digits vs a.1)
