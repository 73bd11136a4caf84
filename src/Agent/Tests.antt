-- ===== src/Agent/Tests.antt =====
-- A request that an agent relays, and a command line.
use gotra.Prelude.{pos, ℕ, Str, true, Option, none, List, [], ◌∷◌, codes, ◌≡◌, refl}
use gotra.Errors.{ok}
use gotra.Gateway.Message.{Request, Response}
use gotra.Agent.{Local}
use gotra.Agent.Command.{Extracted, extract_positional, extract_positional_lem}

abbrev page : Response
page = record { status = pos 200; headers = (codes "TE", codes "x" ∷ []) ∷ []; body = codes "hi" }

abbrev app : Local
app = record {
  port = 3000;
  decimal = λ n. codes "3000";
  error_text = λ e. [];
  request_error = λ m u. none;
  send = λ r. ok page;
}

abbrev visit : Request
visit = record {
  method = codes "GET";
  path = codes "/";
  headers = (codes "Upgrade", codes "h2c" ∷ []) ∷ [];
  body = [];
}

-- The value of a flag that stands apart is taken for the port.
abbrev words : List Str
words = codes "--token" ∷ codes "abc" ∷ codes "9999" ∷ []

value_for_port : extract_positional words ≡ (codes "abc", codes "--token" ∷ codes "9999" ∷ [])
unfolding extract_positional gotra.Agent.Command.is_flag gotra.Prelude.has_prefix
value_for_port = refl

extract_positional_lem_example : Extracted words (extract_positional words)
extract_positional_lem_example = extract_positional_lem words
