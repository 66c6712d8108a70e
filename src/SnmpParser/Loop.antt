-- ===== src/SnmpParser/Loop.antt =====
-- The loops over bindings of src/snmpparser.cpp end.
use libmaycloud.Common.{
  ℕ, zero, suc, ◌-◌, ◌<◌, ◌≡◌, refl, sym, ap, inl, inr, Option, none, some, List, arith, ltb, ◌==◌,
  ltb→lt, Bool-cases,
}
use libmaycloud.SnmpParser.{
  Event, response_int, response_counter_gauge32, response_counter64, response_timeticks,
  response_oid, response_octet_string, SnmpParser, Parsed, crashed, failed, parsed, oid_maxlen,
  reading, opening, attempt, Binding, value_loop, parse_get_value, response_value, trap_value,
  parse_pair, parse_response_value, parse_trap_value,
}
use libmaycloud.Asn1.{
  Header, Outcome, fault, refused, result, read_header, read_timeticks, read_int, read_counter64,
  read_counter_gauge32, read_string, read_null, read_oid,
}
use libmaycloud.Asn1.Bounds.{read_header-IsHeader}

-- A function that parses a binding and moves on where it returns true.
abbrev pub Moves : Binding → Type 0
Moves value = (p limit : ℕ) (s s' : SnmpParser) (q : ℕ) → value p limit s ≡ parsed s' q → p < q

-- Fuel for every byte is enough: with more of it, the loop does the same, whatever it gives without fuel.
pub value_loop_enough :
    (out out' : Parsed) (value : Binding)
    → Moves value
    → (fuel fuel' p end : ℕ) (s : SnmpParser) → end - p < fuel
    → end - p < fuel'
    → value_loop out value fuel p end s ≡ value_loop out' value fuel' p end s
unfolding value_loop
value_loop_enough out out' value moves zero fuel' p end s f f' = absurd (omega arith)
value_loop_enough out out' value moves (suc fuel) zero p end s f f' = absurd (omega arith)
value_loop_enough out out' value moves (suc fuel) (suc fuel') p end s f f' =
    elim (Bool-cases (ltb p end)) [
      | inl l ↦
          let k = ltb→lt p end l in
          rw l (
            go
              (λ s' q g.
                value_loop_enough out out' value moves fuel fuel' q end s' (omega arith)
                  (omega arith))
              (value p end s) refl)
      | inr l ↦ rw l refl
    ]
  where
    go :
        ((s' : SnmpParser) (q : ℕ)
          → p < q
          → value_loop out value fuel q end s' ≡ value_loop out' value fuel' q end s')
        → (r : Parsed) → value p end s ≡ r
        → elim (value p end s) as (λ _. Parsed) [
          | crashed ↦ crashed
          | failed s' ↦ failed s'
          | parsed s' p' ↦ value_loop out value fuel p' end s'
        ]
          ≡ elim (value p end s) as (λ _. Parsed) [
            | crashed ↦ crashed
            | failed s' ↦ failed s'
            | parsed s' p' ↦ value_loop out' value fuel' p' end s'
          ]
    go again crashed e = rw e refl
    go again (failed s') e = rw e refl
    go again (parsed s' q) e = rw e (again s' q (moves p end s s' q e))

-- The bindings of a request, of a response and of a trap move on.
opening_moves :
    (r : Option Header) (s s' : SnmpParser) (q : ℕ) (go : Header → Parsed)
    → opening r s go ≡ parsed s' q
    → (h : Header) × (r ≡ some h) × (go h ≡ parsed s' q)
opening_moves none s s' q go e = cc
opening_moves (some h) s s' q go e = (h, refl, e)

reading_moves :
    {A : Type 0} (r : Outcome A) (s s' : SnmpParser) (q : ℕ) (go : A → ℕ → Parsed)
    → reading r s go ≡ parsed s' q
    → (a : A) × (p : ℕ) × (go a p ≡ parsed s' q)
reading_moves fault s s' q go e = cc
reading_moves refused s s' q go e = cc
reading_moves (result a p) s s' q go e = (a, p, e)

-- The position behind what was parsed.
abbrev position : Parsed → ℕ
position crashed = 0
position (failed s) = 0
position (parsed s p) = p

parse_get_value-Moves : (m : ℕ → ℕ) → Moves (parse_get_value m)
unfolding parse_get_value
parse_get_value-Moves m p limit s s' q e =
    let (h, r, e1) = opening_moves (read_header m p limit) s s' q _ e in
    let (oid, p1, e2) = reading_moves (read_oid oid_maxlen m h.data_at h.limit) s s' q _ e1 in
    let (b, p2, e3) = reading_moves (read_null m p1 h.limit) s s' q _ e2 in
    let i = read_header-IsHeader m p limit h r in omega (arith, ap position e3, i.after, i.whole)

-- What parses the value of a binding ends where the binding does.
abbrev Ends : (List ℕ → (p end : ℕ) → SnmpParser → Parsed) → Type 0
Ends value =
    (oid : List ℕ) (p end : ℕ) (s s' : SnmpParser) (q : ℕ)
    → value oid p end s ≡ parsed s' q
    → q ≡ end

attempt_end :
    {A : Type 0} (r : Outcome A) (handler : A → Event) (end : ℕ) (s s' : SnmpParser) (q : ℕ)
    (other : Parsed)
    → attempt r handler end s other ≡ parsed s' q
    → (other ≡ parsed s' q → q ≡ end)
    → q ≡ end
attempt_end fault handler end s s' q other e k = cc
attempt_end refused handler end s s' q other e k = k e
attempt_end (result a p) handler end s s' q other e k = sym (ap position e)

response_value-Ends : (m : ℕ → ℕ) → Ends (response_value m)
unfolding response_value
response_value-Ends m oid p end s s' q e =
    attempt_end (read_int m p end) (response_int oid) end s s' q _ e λ e1.
      attempt_end (read_counter_gauge32 m p end) (response_counter_gauge32 oid) end s s' q _ e1
        λ e2. attempt_end (read_counter64 m p end) (response_counter64 oid) end s s' q _ e2 λ e3.
          attempt_end (read_string m p end) (response_octet_string oid) end s s' q _ e3 λ e4. cc

trap_value-Ends : (m : ℕ → ℕ) → Ends (trap_value m)
unfolding trap_value
trap_value-Ends m oid p end s s' q e =
    attempt_end (read_int m p end) (response_int oid) end s s' q _ e λ e1.
      attempt_end (read_counter_gauge32 m p end) (response_counter_gauge32 oid) end s s' q _ e1
        λ e2. attempt_end (read_counter64 m p end) (response_counter64 oid) end s s' q _ e2 λ e3.
          attempt_end (read_timeticks m p end) (response_timeticks oid) end s s' q _ e3 λ e4.
            attempt_end (read_oid oid_maxlen m p end) (response_oid oid) end s s' q _ e4 λ e5.
              attempt_end (read_string m p end) (response_octet_string oid) end s s' q _ e5 λ e6. cc

parse_pair-Moves :
    (m : ℕ → ℕ) (value : List ℕ → (p end : ℕ) → SnmpParser → Parsed)
    → Ends value
    → Moves (parse_pair m value)
unfolding parse_pair
parse_pair-Moves m value ends p limit s s' q e =
    let (h, r, e1) = opening_moves (read_header m p limit) s s' q _ e in
    let i = read_header-IsHeader m p limit h r in
    elim (Bool-cases (h.type == 48)) [
      | inl t ↦
          let (oid, p1, e2) =
            reading_moves (read_oid oid_maxlen m h.data_at h.limit) s s' q _ (rw t at e1) in
          omega (arith, ends oid p1 h.limit s s' q e2, i.after, i.whole)
      | inr t ↦ absurd (let x = rw t at e1 in cc)
    ]

-- The loops over the bindings of a request, of a response and of a trap end by themselves, on any bytes: with any fuel
-- above the number of bytes they never run out of it, for their result does not depend on the fuel, nor on
-- what a loop without fuel gives.
pub value_loop_fuel :
    (m : ℕ → ℕ) (out out' : Parsed) (fuel fuel' p end : ℕ) (s : SnmpParser)
    → end - p < fuel
    → end - p < fuel'
    → (value_loop out (parse_get_value m) fuel p end s
        ≡ value_loop out' (parse_get_value m) fuel' p end s)
      × (value_loop out (parse_response_value m) fuel p end s
          ≡ value_loop out' (parse_response_value m) fuel' p end s)
      × (value_loop out (parse_trap_value m) fuel p end s
          ≡ value_loop out' (parse_trap_value m) fuel' p end s)
unfolding parse_response_value parse_trap_value
value_loop_fuel m out out' fuel fuel' p end s f f' = (
  value_loop_enough out out' (parse_get_value m) (parse_get_value-Moves m) fuel fuel' p end s f f',
  value_loop_enough out out' (parse_pair m (response_value m))
      (parse_pair-Moves m (response_value m) (response_value-Ends m)) fuel fuel' p end s f f',
  value_loop_enough out out' (parse_pair m (trap_value m))
      (parse_pair-Moves m (trap_value m) (trap_value-Ends m)) fuel fuel' p end s f f',
)
