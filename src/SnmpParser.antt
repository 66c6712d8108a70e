-- ===== src/SnmpParser.antt =====
-- SNMPParser of src/snmpparser.cpp. The handlers onGetValue and onResponseValue... are virtual, so a call
-- of one is an event; `events` are those so far, in order. Output to the terminal is left out.
pub mod Loop
pub mod GetRequest
pub mod EndToEnd
mod Tests
use libmaycloud.Asn1.{
  Header, Outcome, fault, refused, result, read_header, read_timeticks, read_int, read_counter64,
  read_counter_gauge32, read_string, read_null, read_oid,
}
use libmaycloud.Common.{
  ℕ, zero, suc, ◌+◌, Bool, false, Option, none, some, List, [], ◌∷◌, ◌++◌, ltb, ◌==◌, if◌then◌else◌,
  length, ℤ, pos, negsuc,
}

pub data Event : Type 0 where
  get_value : List ℕ → Event
  response_int : List ℕ → ℤ → Event
  response_counter_gauge32 : List ℕ → ℕ → Event
  response_counter64 : List ℕ → ℕ → Event
  response_timeticks : List ℕ → ℤ → Event
  response_oid : List ℕ → List ℕ → Event
  response_octet_string : List ℕ → List ℕ → Event

pub record SnmpParser : Type 0 where
  pub version : ℤ
  pub community : List ℕ
  pub request_id : ℤ
  pub error_status : ℤ
  pub error_index : ℤ
  pub events : List Event

-- What a function of the parser does: leave the bounds of an array (`crashed`), return false, or return
-- true with the position behind what it parsed.
pub data Parsed : Type 0 where
  crashed : Parsed
  failed : SnmpParser → Parsed
  parsed : SnmpParser → ℕ → Parsed

-- ASN1_OID_MAXLEN, the size of every array for an OID.
abbrev pub oid_maxlen : ℕ
oid_maxlen = 128

abbrev pub raise : Event → SnmpParser → SnmpParser
raise e s = record s { events = s.events ++ (e ∷ []) }

-- `if ( ! reader(...) ) return false;`
abbrev pub reading : {A : Type 0} → Outcome A → SnmpParser → (A → ℕ → Parsed) → Parsed
reading fault s go = crashed
reading refused s go = failed s
reading (result a p) s go = go a p

abbrev pub opening : Option Header → SnmpParser → (Header → Parsed) → Parsed
opening none s go = failed s
opening (some h) s go = go h

-- `if ( reader(...) ) { handler(...); data = end; return true; }`
abbrev pub attempt :
    {A : Type 0} → Outcome A → (A → Event) → (end : ℕ) → SnmpParser → Parsed → Parsed
attempt fault handler end s other = crashed
attempt refused handler end s other = other
attempt (result a p) handler end s other = parsed (raise (handler a) s) end

-- A function that parses one binding.
abbrev pub Binding : Type 0
Binding = (p limit : ℕ) → SnmpParser → Parsed

-- The loop over bindings; `stopped` is what it gives without fuel.
pub value_loop : (stopped : Parsed) → Binding → (fuel p end : ℕ) → SnmpParser → Parsed
value_loop stopped value zero p end s = stopped
value_loop stopped value (suc fuel) p end s =
    let more = λ (s' : SnmpParser) (p' : ℕ). value_loop stopped value fuel p' end s' in
    if ltb p end
    then elim (value p end s) [
      | crashed ↦ crashed
      | failed s' ↦ failed s'
      | parsed s' p' ↦ more s' p'
    ]
    else parsed s end

-- `version == 1`.
abbrev pub is_one : ℤ → Bool
is_one (pos n) = n == 1
is_one (negsuc n) = false

module _ (m : ℕ → ℕ) where
  pub parse_get_value : Binding
  parse_get_value p limit s = opening (read_header m p limit) s λ h.
      reading (read_oid oid_maxlen m h.data_at h.limit) s
        λ oid q. reading (read_null m q h.limit) s λ b q'. parsed (raise (get_value oid) s) h.limit

  pub parse_get_bindings : Binding
  parse_get_bindings p limit s =
      opening (read_header m p limit) s
        λ h. value_loop crashed parse_get_value (h.length + 1) h.data_at h.limit s

  -- How a message starts: requestID, errorStatus and errorIndex; then its bindings.
  pub parse_message : Binding → Binding
  parse_message bindings p limit s = reading (read_int m p limit) s λ i q.
      let s1 = record s { request_id = i } in
      reading (read_int m q limit) s1 λ j q1.
        let s2 = record s1 { error_status = j } in
        reading (read_int m q1 limit) s2 λ k q2. bindings q2 limit (record s2 { error_index = k })

  pub parse_get_request : Binding
  parse_get_request = parse_message parse_get_bindings

  pub response_value : List ℕ → (p end : ℕ) → SnmpParser → Parsed
  response_value oid p end s = attempt (read_int m p end) (response_int oid) end s (
      attempt (read_counter_gauge32 m p end) (response_counter_gauge32 oid) end s (
        attempt (read_counter64 m p end) (response_counter64 oid) end s
          (attempt (read_string m p end) (response_octet_string oid) end s (failed s))))

  pub trap_value : List ℕ → (p end : ℕ) → SnmpParser → Parsed
  trap_value oid p end s = attempt (read_int m p end) (response_int oid) end s (
      attempt (read_counter_gauge32 m p end) (response_counter_gauge32 oid) end s (
        attempt (read_counter64 m p end) (response_counter64 oid) end s (
          attempt (read_timeticks m p end) (response_timeticks oid) end s (
            attempt (read_oid oid_maxlen m p end) (response_oid oid) end s
              (attempt (read_string m p end) (response_octet_string oid) end s (failed s))))))

  -- A binding of a response or of a trap: a sequence of an OID and a value.
  pub parse_pair : (List ℕ → (p end : ℕ) → SnmpParser → Parsed) → Binding
  parse_pair value p limit s = opening (read_header m p limit) s λ h.
      if h.type == 48
      then reading (read_oid oid_maxlen m h.data_at h.limit) s (λ oid q. value oid q h.limit s)
      else failed s

  pub parse_response_value : Binding
  parse_response_value = parse_pair response_value

  pub parse_trap_value : Binding
  parse_trap_value = parse_pair trap_value

  pub parse_pairs : Binding → Binding
  parse_pairs value p limit s = opening (read_header m p limit) s λ h.
      if h.type == 48 then value_loop crashed value (h.length + 1) h.data_at h.limit s else failed s

  pub parse_response_bindings : Binding
  parse_response_bindings = parse_pairs parse_response_value

  pub parse_response : Binding
  parse_response = parse_message parse_response_bindings

  pub parse_trap_bindings : Binding
  parse_trap_bindings = parse_pairs parse_trap_value

  pub parse_trap : Binding
  parse_trap = parse_message parse_trap_bindings

  -- parse(host, host_ip, data, limit).
  pub parse : Binding
  parse p limit s = opening (read_header m p limit) s λ h.
      reading (read_int m h.data_at limit) s λ v q.
        let s1 = record s { version = v } in
        if is_one v
        then reading (read_string m q limit) s1 (λ c q1.
          let s2 = record s1 { community = c } in
          opening (read_header m q1 limit) s2 λ k.
            if k.type == 160
            then parse_get_request k.data_at limit s2
            else if k.type == 162
            then parse_response k.data_at limit s2
            else if k.type == 167
            then parse_trap k.data_at limit s2
            else failed s2)
        else failed s1

  -- parse(host, host_ip, data, size).
  pub parse_sized : (p size : ℕ) → SnmpParser → Parsed
  parse_sized p size s = parse p (p + size) s
