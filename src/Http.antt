-- ===== src/Http.antt =====
-- What the gateway uses of package net/http: headers, requests and response writers. Header names are
-- in canonical form. The calls of a handler on its writer are values, so that writers can be compared.
pub mod Errors
use gateway_core.Base.{
  ℕ, Bool, true, false, not, ◌&&◌, ◌||◌, List, [], ◌∷◌, ◌++◌, Option, none, some, if◌then◌else◌,
  ltb, leb, ◌==◌,
}
use gateway_core.Base.Int.{ℤ}
use gateway_core.Base.Bytes.{Bytes, bytes, same_bytes}

-- The values under each name.
abbrev pub Header : Type 0
Header = Bytes → List Bytes

abbrev pub no_header : Header
no_header k = []

unfoldable pub header_set : Bytes → Bytes → Header → Header
header_set k v h j = if same_bytes j k then v ∷ [] else h j

unfoldable pub header_add : Bytes → Bytes → Header → Header
header_add k v h j = if same_bytes j k then h j ++ v ∷ [] else h j

unfoldable pub header_drop : (Bytes → Bool) → Header → Header
header_drop p h j = if p j then [] else h j

abbrev pub first_value : List Bytes → Bytes
first_value [] = []
first_value (v ∷ vs) = v

unfoldable pub header_get : Bytes → Header → Bytes
header_get k h = first_value (h k)

pub record Url : Type 0 where
  pub scheme : Bytes
  pub host : Bytes
  pub path : Bytes

pub record Request : Type 0 where
  pub method : Bytes
  pub path : Bytes
  pub header : Header
  pub content_length : ℤ
  pub has_body : Bool
  -- `MaxBytesReader`: how much of the body may be read.
  pub body_cap : Option ℤ
  pub over_tls : Bool

-- A call of a handler on its `ResponseWriter`.
pub data Call : Type 0 where
  adds_header sets_header : Bytes → Bytes → Call
  -- Takes the headers of these names away: one of them, or with `clear` all.
  drops_headers : (Bytes → Bool) → Call
  writes_header : ℕ → Call
  writes : Bytes → Call

-- The status line and the header that have left.
pub record Head : Type 0 where
  pub status : ℕ
  pub header : Header

-- The server's own writer: `header` is the map that handlers still change.
pub record Client : Type 0 where
  pub header : Header
  pub sent : Option Head
  pub body : Bytes

abbrev pub new_client : Client
new_client = record { header = no_header; sent = none; body = [] }

-- Codes that are sent ahead of the response, which is still to come; 101 is a response.
abbrev pub is_informational : ℕ → Bool
is_informational code = leb 100 code && ltb code 200 && not (code == 101)

-- The first code that is not informational decides; a later one is ignored.
unfoldable pub client_write_header : ℕ → Client → Client
client_write_header code c = elim c.sent [
  | some h ↦ c
  | none ↦
      if is_informational code
      then c
      else record c { sent = some (record { status = code; header = c.header }) }
]

unfoldable pub client_write : Bytes → Client → Client
client_write b c = let c' = client_write_header 200 c in record c' { body = c'.body ++ b }

-- A handler's call on the server's own writer.
unfoldable pub client_call : Call → Client → Client
client_call (adds_header k v) c = record c { header = header_add k v c.header }
client_call (sets_header k v) c = record c { header = header_set k v c.header }
client_call (drops_headers p) c = record c { header = header_drop p c.header }
client_call (writes_header code) c = client_write_header code c
client_call (writes b) c = client_write b c

unfoldable pub client_calls : List Call → Client → Client
client_calls [] c = c
client_calls (k ∷ ks) c = client_calls ks (client_call k c)
