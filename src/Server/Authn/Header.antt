-- ===== src/Server/Authn/Header.antt =====
-- What a client puts into a Basic header is what the server takes out.
use read_flow.Chars.{codes, Chars, strip_prefix, to_lowercase}
use read_flow.Server.Authn.{ok, is_basic, extract_basic_auth, split_colon}
use read_flow.Prelude.{true, ◌++◌, List, Option, false, some, ◌≡◌, ℕ, refl, String, ◌==◌}
use Prim.Native.Char.{code}

abbrev pub append : String → String → String
append String.[] t = t
append (String.◌∷◌ c s) t = String.◌∷◌ c (append s t)

abbrev pub LacksColon : String → Type 0
LacksColon String.[] = Unit
LacksColon (String.◌∷◌ c s) = ((code c == b':') ≡ false) × LacksColon s

split_colon-append :
    (user pass : String)
    → LacksColon user
    → split_colon (append user (append ":" pass)) ≡ some (user, pass)
unfolding split_colon
split_colon-append String.[] pass lacks = refl
split_colon-append (String.◌∷◌ c s) pass lacks =
    rw (lacks.0, split_colon-append s pass lacks.1) refl

basic_prefix : (s : Chars) → is_basic (codes "Basic " ++ s) ≡ true
unfolding to_lowercase strip_prefix
basic_prefix s = refl

-- Whatever name without a colon and whatever password a client sends in a Basic header, the server
-- takes just these out of it, given that its decoders undo the encoding of the two joined by a
-- colon.
pub extract_basic_auth-encoded :
    (decode : Chars → Option (List ℕ)) (from_utf8 : List ℕ → Option String) (encoded : Chars)
    (bytes : List ℕ) (user_id passphrase : String)
    → decode encoded ≡ some bytes
    → from_utf8 bytes ≡ some (append user_id (append ":" passphrase))
    → LacksColon user_id
    → extract_basic_auth decode from_utf8 (codes "Basic " ++ encoded) ≡ ok (user_id, passphrase)
unfolding extract_basic_auth
extract_basic_auth-encoded decode from_utf8 encoded bytes user_id passphrase decodes texts lacks =
    rw (basic_prefix encoded, decodes, texts, split_colon-append user_id passphrase lacks) refl
