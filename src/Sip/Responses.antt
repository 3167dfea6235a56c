-- ===== src/Sip/Responses.antt =====
-- sipproxy/sipproxy_response_handler.go: what a text from the SIP server, or the status of an immediate
-- answer, leads to. The handlers that only write log lines, those of requests among them, do nothing.
pub mod Rejections
use quepasa.Prelude.{
  ℕ, zero, suc, ◌+◌, ◌-◌, ◌*◌, ◌/◌, ◌%◌, ◌^◌, ◌≤◌, ◌<◌, String, ◌≡◌, refl, sym, ap, ◌∙◌, ◌≢◌, ◌↔◌,
  ◌⊎◌, inl, inr, Bool, true, false, ◌&&◌, ◌||◌, not, Option, none, some, List, [], ◌∷◌, ◌++◌, map,
  arith, ltb, leb, ◌==◌, if◌then◌else◌, ltb→lt, lt→ltb, leb→le, le→leb, ==_iff, not_zero, tests,
  Bool-cases, Option-cases, sum-cases, is_some, length, get_elem?, take, drop, length-append,
  drop-append, length-take-le, All, ℤ, pos, negsuc, int_eq, int_eq_iff, ne_of_int_eq, eq_of_some,
  All-append, ◌>>=◌,
}
use quepasa.Strings.{
  Text, codes, same, contains, has_prefix, has_suffix, contains_text, without, trim_left, trim,
  split, before, is_space, trim_space, to_upper, to_lower, is_digit, upper, lower, trim_space_left,
  trim_space_right,
}
use quepasa.Sip.{Report, accepted, rejected}

-- The callbacks that are set, and the call that they are told of.
pub record Line : Type 0 where
  pub accepts : Bool
  pub rejects : Bool
  pub call_id : Text
  pub from_phone : Text
  pub to_phone : Text

unfoldable pub report_accepted : Line → ℕ → List Report
report_accepted l status =
    if l.accepts then accepted l.call_id l.from_phone l.to_phone status ∷ [] else []

unfoldable pub report_rejected : Line → ℕ → List Report
report_rejected l status =
    if l.rejects then rejected l.call_id l.from_phone l.to_phone status ∷ [] else []

-- The status that createMockErrorResponse makes of a text.
unfoldable pub create_mock_error_response : Text → ℕ
unfolding same
create_mock_error_response (a ∷ b ∷ c ∷ s) =
    let code = a ∷ b ∷ c ∷ s in
    if same code (codes "404")
    then 404
    else if same code (codes "486")
    then 486
    else if same code (codes "480")
    then 480
    else if a == b'5'
    then 500
    else if a == b'6'
    then 600
    else 400
create_mock_error_response _ = 400

-- The default of both switches; `none` is the panic on an empty status.
unfoldable pub other_status : Line → Text → Option (List Report × Bool)
unfolding create_mock_error_response report_rejected
other_status l [] = none
other_status l (c ∷ code) =
    if leb b'4' c
    then some (report_rejected l (create_mock_error_response (c ∷ code)), true)
    else some ([], false)

unfoldable pub process_immediate_response : Line → Text → Option (List Report)
unfolding same report_accepted report_rejected other_status
process_immediate_response l code =
    if same code (codes "200")
    then some (report_accepted l 200)
    else if same code (codes "603")
    then some (report_rejected l 603)
    else (other_status l code >>= (λ o. some o.0))

-- The switch of ProcessContinuousResponse, with its answer.
unfoldable pub act : Line → Text → Option (List Report × Bool)
unfolding same report_accepted report_rejected other_status
act l code =
    if same code (codes "100") || same code (codes "180") || same code (codes "183")
    then some ([], false)
    else if same code (codes "200")
    then some (report_accepted l 200, false)
    else if same code (codes "603")
    then some (report_rejected l 603, true)
    else other_status l code

-- strings.Fields(s), behind a word that has begun.
unfoldable pub fields : Text → Text → List Text
unfolding is_space
fields [] word = if length word == 0 then [] else word ∷ []
fields (c ∷ s) word =
    let apart = fields s [] in
    let longer = fields s (word ++ (c ∷ [])) in
    if is_space c then (if length word == 0 then apart else word ∷ apart) else longer

-- The status of a response, where it has one.
unfoldable pub status_code : Text → Option Text
unfolding contains_text before trim_space has_prefix fields
status_code response =
    let line = trim_space (before response 10) in
    let parts = fields line [] in
    if contains_text response (codes "SIP/2.0")
      && has_prefix line (codes "SIP/2.0 ")
      && leb 3 (length parts)
    then get_elem? parts 1
    else none

unfoldable pub process_continuous_response : Line → Text → Option (List Report × Bool)
unfolding contains_text status_code act
process_continuous_response l response =
    if contains_text response (codes "BYE ") || contains_text response (codes "CANCEL ")
    then some ([], false)
    else elim (status_code response) [ none ↦ some ([], false) | some code ↦ act l code ]
