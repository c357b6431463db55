-- ===== src/Transport.antt =====
-- packages/shared/src/transport.ts: which pathnames may carry the data plane.
pub mod Laws
use opus8_cf.Base.{
  ℕ, suc, ◌+◌, ◌≤◌, ◌≡◌, Bool, true, false, not, ◌&&◌, ◌||◌, List, [], ◌∷◌, ◌++◌, Option, none,
  some, leb, ◌==◌, if◌then◌else◌, length, all, any, Text, codes, text_eq, trim, lower, is_alnum,
  starts_with, has_text, split, Value, str, or_else,
}

abbrev pub default_transport_path : Text
default_transport_path = codes "/"

abbrev pub transport_path_max_length : ℕ
transport_path_max_length = 128

-- The class of `SAFE_PATH`.
abbrev pub is_path_char : ℕ → Bool
is_path_char c = is_alnum c || (c == b'.' || (c == b'_' || (c == b'~' || (c == b'/' || c == b'-'))))

abbrev pub is_rooted : Text → Bool
is_rooted [] = false
is_rooted (c ∷ s) = c == b'/'

-- `SAFE_PATH.test(path)`.
unfoldable pub safe_path : Text → Bool
safe_path s = is_rooted s && all is_path_char s

abbrev pub reserved_prefixes : List Text
reserved_prefixes =
    codes "/__opus8"
    ∷ codes "/admin"
    ∷ codes "/login"
    ∷ codes "/sub"
    ∷ codes "/version"
    ∷ codes "/locations"
    ∷ codes "/robots.txt"
    ∷ codes "/favicon.ico"
    ∷ []

-- `lower === prefix || lower.startsWith(prefix + "/")`.
unfoldable pub under : Text → Text → Bool
under path prefix = text_eq path prefix || starts_with path (prefix ++ codes "/")

unfoldable pub is_dot_segment : Text → Bool
is_dot_segment s = text_eq s (codes ".") || text_eq s (codes "..")

-- The checks of `normalizeTransportPath` after `trim`, in the source's order.
unfoldable pub check_path : Text → Option Text
unfolding safe_path
check_path path =
    if (length path == 0 || not (leb (length path) transport_path_max_length))
      || (not (safe_path path) || has_text path (codes "//"))
    then none
    else if any is_dot_segment (split b'/' path)
    then none
    else if any (under (lower path)) reserved_prefixes
    then none
    else some path

-- `normalizeTransportPath` on a string.
unfoldable pub normalize_text : Text → Option Text
unfolding check_path
normalize_text s = check_path (trim s)

unfoldable pub normalize_transport_path : Value → Option Text
unfolding normalize_text
normalize_transport_path (str s) = normalize_text s
normalize_transport_path _ = none

-- `nodeTransportPath`.
unfoldable pub node_transport_path : Option Text → Option Text
unfolding normalize_text
node_transport_path value = normalize_text (or_else value default_transport_path)

-- `xrayWebSocketPath`; the constant is `TRANSPORT_EARLY_DATA`.
unfoldable pub xray_web_socket_path : Text → Text
xray_web_socket_path path = path ++ codes "?ed=2560"
