-- ===== src/HeavyHash/Unlink.antt =====
-- The loop of hashDelete of src/headers/maycloud/heavyhash.h and the writes behind it on one chain.
use libmaycloud.Common.{
  ℕ, zero, suc, ◌+◌, ◌<◌, ◌≡◌, refl, sym, ap, ◌∙◌, ◌≢◌, ◌⊎◌, inl, inr, Bool, true, false, Option,
  none, some, [], ◌∷◌, arith, ◌==◌, ne→==_false, Bool-cases, ◌>>=◌, length,
}
use libmaycloud.Pool.{Ptr, null, Item, item, Heap, assign}
use libmaycloud.Pool.Chain.{
  Cells, has, Distinct, Chain, assign_self, assign-other, not_has-cons, Seg-assign,
}
use libmaycloud.HeavyHash.{delete_loop}
use libmaycloud.HeavyHash.Cells.{
  apart_sym, has-inside, has-here, has-outside, lookup_cell, place_of, lookup_nil, lookup_hit,
  lookup_miss,
}
use libmaycloud.HeavyHash.Remove.{remove_cell, at_miss, at_hit, place_of-remove_cell}

-- The item `r` behind the item `o` of `xs`, and the chain `ys` when `o` points past it and `r` anywhere.
abbrev pub Unlinked : {A : Type 0} → Heap A → Ptr → Cells A → Ptr → Ptr → Cells A → Type 0
Unlinked {A} h p xs o r ys =
    (c : Item A) × (d : Item A) × (h o ≡ some c)
    × (c.next ≡ r)
    × (h r ≡ some d)
    × (has o xs ≡ true)
    × ((r == o) ≡ false)
    × ((q : Ptr) → Chain (assign (assign h o (item c.value d.next)) r (item d.value q)) p ys)

module _ {K V : Type 0} (same : K → K → Bool) (hash : K → ℕ) (key : K) where
  loop_null :
      (fuel : ℕ) (h : Heap (K × V)) → 0 < fuel → delete_loop same hash fuel h null key ≡ some null
  unfolding delete_loop
  loop_null zero h l = absurd (omega (arith, l))
  loop_null (suc fuel) h l = refl

  -- A round at an item `p` whose next pointer is `q`, by the tests that it does.
  abbrev at_next : ℕ → Heap (K × V) → Ptr → Ptr → Bool → Option Ptr
  at_next fuel h p q true = some p
  at_next fuel h p q false = delete_loop same hash fuel h q key

  abbrev look : ℕ → Heap (K × V) → Ptr → Ptr → Option (Item (K × V)) → Option Ptr
  look fuel h p q o = o >>= λ d. at_next fuel h p q (same d.value.0 key)

  abbrev round : ℕ → Heap (K × V) → Ptr → Ptr → Bool → Option Ptr
  round fuel h p q true = delete_loop same hash fuel h q key
  round fuel h p q false = look fuel h p q (h q)

  module _ (fuel : ℕ) (h : Heap (K × V)) (p q : Ptr) (kv : K × V) (ne : p ≢ null)
      (at : h p ≡ some (item kv q)) where
    loop_round : delete_loop same hash (suc fuel) h p key ≡ round fuel h p q (q == null)
    unfolding delete_loop
    loop_round = rw (ne→==_false p null ne, at) refl

    loop_end : 0 < fuel → q ≡ null → delete_loop same hash (suc fuel) h p key ≡ some null
    loop_end l n = loop_round ∙ ap (λ z. round fuel h p z (z == null)) n ∙ loop_null fuel h l

    module _ (r : Ptr) (lv : K × V) (ne' : q ≢ null) (at' : h q ≡ some (item lv r)) where
      loop_found : same lv.0 key ≡ true → delete_loop same hash (suc fuel) h p key ≡ some p
      loop_found t =
          loop_round
          ∙ ap (round fuel h p q) (ne→==_false q null ne')
          ∙ ap (look fuel h p q) at'
          ∙ ap (at_next fuel h p q) t

      loop_on :
          same lv.0 key ≡ false
          → delete_loop same hash (suc fuel) h p key ≡ delete_loop same hash fuel h q key
      loop_on f =
          loop_round
          ∙ ap (round fuel h p q) (ne→==_false q null ne')
          ∙ ap (look fuel h p q) at'
          ∙ ap (at_next fuel h p q) f

  -- The chain without the item behind the first.
  unlink_here :
      (h : Heap (K × V)) (p a b : Ptr) (kv lv : K × V) (ys : Cells (K × V))
      → Chain h p ((a, kv) ∷ (b, lv) ∷ ys)
      → Distinct ((a, kv) ∷ (b, lv) ∷ ys)
      → Unlinked h p ((a, kv) ∷ (b, lv) ∷ ys) a b ((a, kv) ∷ ys)
  unlink_here h p a b kv lv ys (q, e, ne, at, (r, e', ne', at', s)) d =
      let (ab, o) = not_has-cons a b lv ys d.0 in
      (
        item kv q,
        item lv r,
        at,
        e',
        at',
        has-here a kv ((b, lv) ∷ ys),
        apart_sym a b ab,
        λ z. (
          r,
          e,
          ne,
          assign-other (assign h a (item kv r)) b a (item lv z) ab ∙ assign_self h a (item kv r),
          Seg-assign (assign h a (item kv r)) r null b (item lv z) ys d.1.0
              (Seg-assign h r null a (item kv r) ys o s),
        ),
      )

  -- The same behind another item.
  unlink_behind :
      (h : Heap (K × V)) (p a q o r : Ptr) (kv : K × V) (xs ys : Cells (K × V))
      → p ≡ a
      → a ≢ null
      → h a ≡ some (item kv q)
      → has a xs ≡ false
      → has r xs ≡ true
      → Unlinked h q xs o r ys
      → Unlinked h p ((a, kv) ∷ xs) o r ((a, kv) ∷ ys)
  unlink_behind h p a q o r kv xs ys e ne at out inside (c, d, ho, n, hr, i, ro, chain) = (
    c,
    d,
    ho,
    n,
    hr,
    has-inside o a kv xs i,
    ro,
    λ z. (
      q,
      e,
      ne,
      assign-other (assign h o (item c.value d.next)) r a (item d.value z)
            (has-outside a r xs out inside)
          ∙ assign-other h o a (item c.value d.next) (has-outside a o xs out i)
          ∙ at,
      chain z,
    ),
  )

  abbrev pub Looped : ℕ → Heap (K × V) → Ptr → Ptr → K × V → Cells (K × V) → Type 0
  Looped fuel h p a kv xs =
      ((lookup_cell same hash key xs ≡ none) × (delete_loop same hash fuel h p key ≡ some null))
      ⊎ ((w : V) × (o : Ptr) × (lookup_cell same hash key xs ≡ some w)
          × (delete_loop same hash fuel h p key ≡ some o)
          × Unlinked h p ((a, kv) ∷ xs) o (place_of same hash key xs)
              ((a, kv) ∷ remove_cell same hash key xs))

  -- The loop behind an item without the key.
  pub delete_loop-Chain :
      (fuel : ℕ) (h : Heap (K × V)) (p a : Ptr) (kv : K × V) (xs : Cells (K × V))
      → Chain h p ((a, kv) ∷ xs)
      → Distinct ((a, kv) ∷ xs)
      → length xs + 1 < fuel
      → Looped fuel h p a kv xs
  delete_loop-Chain zero h p a kv xs c d l = absurd (omega (arith, l))
  delete_loop-Chain (suc fuel) h p a kv [] (q, e, ne, at, s) d l = inl (
    lookup_nil same hash key,
    loop_end fuel h p q kv (λ n. ne (sym e ∙ n)) (ap h e ∙ at) (omega (arith, l)) s,
  )
  delete_loop-Chain (suc fuel) h p a kv ((b, lv) ∷ ys) (q, e, ne, at, s) d l =
      let (r, e', ne', at', s') = s in
      let ne_p : p ≢ null = λ n. ne (sym e ∙ n) in
      let at_p : h p ≡ some (item kv q) = ap h e ∙ at in
      let ne_q : q ≢ null = λ n. ne' (sym e' ∙ n) in
      let at_q : h q ≡ some (item lv r) = ap h e' ∙ at' in
      let rest = delete_loop-Chain fuel h q b lv ys s d.1 (omega (arith, l)) in
      elim (Bool-cases (same lv.0 key)) [
        | inl t ↦ inr (
          lv.1,
          a,
          lookup_hit same hash key b lv ys t,
          loop_found fuel h p q kv ne_p at_p r lv ne_q at_q t ∙ ap some e,
          at_hit same hash key (λ o zs. Unlinked h p ((a, kv) ∷ (b, lv) ∷ ys) a o ((a, kv) ∷ zs)) b
              lv ys t (unlink_here h p a b kv lv ys (q, e, ne, at, s) d),
        )
        | inr f ↦
            let on = loop_on fuel h p q kv ne_p at_p r lv ne_q at_q f in
            elim rest [
              | inl (n, run) ↦ inl (lookup_miss same hash key b lv ys f ∙ n, on ∙ run)
              | inr (w, o, n, run, un) ↦ inr (
                w,
                o,
                lookup_miss same hash key b lv ys f ∙ n,
                on ∙ run,
                at_miss same hash key
                    (λ r' zs. Unlinked h p ((a, kv) ∷ (b, lv) ∷ ys) o r' ((a, kv) ∷ zs)) b lv ys f
                    (unlink_behind h p a q o (place_of same hash key ys) kv ((b, lv) ∷ ys)
                      ((b, lv) ∷ remove_cell same hash key ys) e ne at d.0
                      (has-inside (place_of same hash key ys) b lv ys
                        (place_of-remove_cell same hash key w ys d.1.1 n).0)
                      un),
              )
            ]
      ]
