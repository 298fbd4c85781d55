-- ===== src/Observability.antt =====
-- src/platform/observability/request-id.ts: the identifiers that a request carries through the logs.
pub mod Stamps
pub mod Urls
pub mod Examples
use nestjs_modular_monolith.Common.{
  ℕ, Bool, true, false, not, ◌&&◌, ◌||◌, Option, none, some, List, [], ◌∷◌, leb, ltb, ◌==◌,
  if◌then◌else◌, length, any,
}
use nestjs_modular_monolith.Text.{Text}

-- A header as Node has it.
pub data HeaderValue : Type 0 where
  absent : HeaderValue
  one : Text → HeaderValue
  many : List Text → HeaderValue

pub record RequestIds : Type 0 where
  pub request_id : Text
  pub correlation_id : Text

-- Of the headers, `x-request-id` and `x-correlation-id`; and what was stamped on the object.
pub record Carrier : Type 0 where
  pub request_id_header : HeaderValue
  pub correlation_id_header : HeaderValue
  pub stamped : Option RequestIds

-- A request, with the one that it wraps if it wraps one.
pub record RequestIdCarrier : Type 0 where
  pub own : Carrier
  pub raw : Option Carrier

-- `/^[A-Za-z0-9_.:-]+$/`, of a unit.
abbrev pub is_safe_unit : ℕ → Bool
is_safe_unit c =
    leb 65 c && leb c 90
    || leb 97 c && leb c 122
    || leb 48 c && leb c 57
    || c == 95
    || c == 46
    || c == 58
    || c == 45

abbrev pub max_id_length : ℕ
max_id_length = 128

unfoldable pub is_safe_id : Text → Bool
is_safe_id value =
    ltb 0 (length value)
    && (leb (length value) max_id_length && not (any (λ c. not (is_safe_unit c)) value))

abbrev pub first_of : List Text → Option Text
first_of [] = none
first_of (value ∷ values) = some value

abbrev pub first_header_value : HeaderValue → Option Text
first_header_value absent = none
first_header_value (one value) = some value
first_header_value (many values) = first_of values

abbrev pub safe_or : Option Text → Text → Text
safe_or none fallback = fallback
safe_or (some inbound) fallback = if is_safe_id inbound then inbound else fallback

-- `new_id` is what `newId()` returns.
unfoldable pub resolve_request_id : Carrier → Bool → Text → Text
resolve_request_id target trust_inbound new_id =
    if not trust_inbound
    then new_id
    else safe_or (first_header_value target.request_id_header) new_id

unfoldable pub resolve_correlation_id : Carrier → Text → Text
resolve_correlation_id target fallback =
    safe_or (first_header_value target.correlation_id_header) fallback

abbrev pub stamp : Carrier → Option RequestIds → Bool → Text → RequestIds × Carrier
stamp target (some ids) trust_inbound new_id = (ids, target)
stamp target none trust_inbound new_id =
    let request_id = resolve_request_id target trust_inbound new_id in
    let ids : RequestIds = record {
      request_id = request_id;
      correlation_id = resolve_correlation_id target request_id;
    } in
    (ids, record target { stamped = some ids })

-- `request.raw ?? request`
abbrev pub target_of : RequestIdCarrier → Option Carrier → Carrier
target_of request none = request.own
target_of request (some raw) = raw

abbrev pub put_back : RequestIdCarrier → Option Carrier → Carrier → RequestIdCarrier
put_back request none target = record request { own = target }
put_back request (some raw) target = record request { raw = some target }

unfoldable pub ensure_request_ids : RequestIdCarrier → Bool → Text → RequestIds × RequestIdCarrier
ensure_request_ids request trust_inbound new_id =
    let target = target_of request request.raw in
    let (ids, stamped) = stamp target target.stamped trust_inbound new_id in
    (ids, put_back request request.raw stamped)
