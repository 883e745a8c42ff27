-- ===== src/Servers/Validation.antt =====
-- The checks on a server's name and host of LoRaDB-UI/backend/src/routes/servers.ts.
use lo_ra_dbase.Common.{
  ℕ, String, Bool, false, ◌&&◌, ◌||◌, Option, none, some, List, [], ◌∷◌, ltb, leb, ◌==◌, nat_eq,
  string_eq, if◌then◌else◌,
}
use lo_ra_dbase.Text.{some_chars, is_digit, is_letter, is_space, split, starts_with, length}
use lo_ra_dbase.Config.{Env}
use Prim.Native.String.{◌++◌ as append}

-- /^[a-zA-Z0-9\s\-_]+$/
unfoldable pub is_valid_server_name : String → Bool
unfolding some_chars
is_valid_server_name name =
    some_chars (λ c. is_letter c || is_digit c || is_space c || c == b'-' || c == b'_') name

-- \d{1,k} between two marks
abbrev is_number_part : ℕ → String → Bool
is_number_part k part = some_chars is_digit part && leb (length part) k

-- \d{1,3}\.\d{1,3}\.\d{1,3}\.\d{1,3}
is_ip_parts : List String → Bool
is_ip_parts (a ∷ b ∷ c ∷ d ∷ []) =
    is_number_part 3 a && is_number_part 3 b && is_number_part 3 c && is_number_part 3 d
is_ip_parts _ = false

-- the group before the port: an IP address or [a-zA-Z0-9.-]+
abbrev is_host_part : String → Bool
is_host_part host =
    is_ip_parts (split b'.' host)
    || some_chars (λ c. is_letter c || is_digit c || c == b'.' || c == b'-') host

-- neither alternative of the group holds a colon: the text is split there, and (:\d{1,5})? is the rest
is_host_and_port : List String → Bool
is_host_and_port (host ∷ []) = is_host_part host
is_host_and_port (host ∷ port ∷ []) = is_host_part host && is_number_part 5 port
is_host_and_port _ = false

abbrev pub has_protocol : String → Bool
has_protocol host = starts_with host "http://" || starts_with host "https://"

abbrev has_hostname : Option String → Bool
has_hostname none = false
has_hostname (some hostname) = ltb 0 (length hostname)

unfoldable pub is_valid_host : Env → String → Bool
unfolding is_host_and_port is_ip_parts some_chars split length
is_valid_host env host =
    if has_protocol host
    then has_hostname (env.url_hostname host)
    else is_host_and_port (split b':' host)

-- `host` as it is, or with http:// in front
unfoldable pub base_url : String → String
base_url host = if has_protocol host then host else append "http://" host
