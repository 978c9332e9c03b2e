-- ===== src/Prelude/UrlParse.antt =====
-- `urllib.parse.urlparse` for ASCII text, with the properties of its result that the sources read.
-- Whether the text in the brackets of a netloc is an IP address, which the module `ipaddress` decides,
-- is the argument `is_bracketed`.
use Prim.Native.Char.{code}
use Prim.Native.String
use Prim.Native.String.{String, [], ◌∷◌}
use Prim.Native.Nat.{ℕ}
use mathlib.Core.Bool.{Bool, true, false, not, ◌&&◌, ◌||◌}
use mathlib.Core.Option.{Option, none, some}
use mathlib.Core.Path.{◌≡◌, refl}
use text.Mathlib.Text.{◌==◌}
use bond_mcps.Prelude.Tests.{leb, nat_eq, if◌then◌else◌}
use bond_mcps.Prelude.Text.{lower, has_char}
use bond_mcps.Prelude.Int.{pos, negsuc, int_of}

-- `s.partition(sep)`: the text before the first separator, and the text behind it if there is one.
unfoldable pub partition : ℕ → String → String × Option String
partition sep [] = ([], none)
partition sep (c ∷ s) =
    let rest = partition sep s in if nat_eq (code c) sep then ([], some s) else (c ∷ rest.0, rest.1)

-- `s.rpartition(sep)`: the text before the last separator if there is one, and the text behind it.
unfoldable pub rpartition : ℕ → String → Option String × String
rpartition sep [] = (none, [])
rpartition sep (c ∷ s) =
    let (front, behind) = rpartition sep s in
    elim front [
      | some before ↦ (some (c ∷ before), behind)
      | none ↦ if nat_eq (code c) sep then (some [], s) else (none, c ∷ s)
    ]

pub record Url : Type 0 where
  pub scheme : String
  pub netloc : String
  pub path : String
  pub query : String
  pub fragment : String
  pub username : Option String
  pub password : Option String
  pub hostname : Option String
  -- the text that the property `port` reads
  pub port_text : Option String

or_empty : Option String → String
or_empty none = ""
or_empty (some s) = s

is_alpha : ℕ → Bool
is_alpha c = (leb 65 c && leb c 90) || (leb 97 c && leb c 122)

is_digit : ℕ → Bool
is_digit c = leb 48 c && leb c 57

-- scheme_chars
all_scheme_chars : String → Bool
unfolding is_alpha is_digit
all_scheme_chars [] = true
all_scheme_chars (c ∷ s) =
    (is_alpha (code c)
      || is_digit (code c)
      || nat_eq (code c) b'+'
      || nat_eq (code c) b'-'
      || nat_eq (code c) b'.')
    && all_scheme_chars s

starts_alpha : String → Bool
unfolding is_alpha
starts_alpha [] = false
starts_alpha (c ∷ s) = is_alpha (code c)

-- The leading control characters and spaces go, and every tab and line end.
lstrip_control : String → String
lstrip_control [] = []
lstrip_control (c ∷ s) = let rest = lstrip_control s in if leb (code c) 32 then rest else c ∷ s

unsafe_removed : String → String
unsafe_removed [] = []
unsafe_removed (c ∷ s) =
    let rest = unsafe_removed s in
    if nat_eq (code c) 9 || nat_eq (code c) 10 || nat_eq (code c) 13 then rest else c ∷ rest

-- The netloc ends at the first `/`, `?` or `#`.
splitnetloc : String → String × String
splitnetloc [] = ([], [])
splitnetloc (c ∷ s) =
    let rest = splitnetloc s in
    if nat_eq (code c) b'/' || nat_eq (code c) b'?' || nat_eq (code c) b'#'
    then ([], c ∷ s)
    else (c ∷ rest.0, rest.1)

split_scheme : String → String × String
unfolding starts_alpha all_scheme_chars
split_scheme s =
    let (before, behind) = partition b':' s in
    elim behind [
      | some rest ↦
          if starts_alpha before && all_scheme_chars before then (lower before, rest) else ("", s)
      | none ↦ ("", s)
    ]

split_authority : String → String × String
unfolding splitnetloc
split_authority [] = ("", [])
split_authority (c ∷ []) = ("", c ∷ [])
split_authority (c ∷ d ∷ s) =
    if nat_eq (code c) b'/' && nat_eq (code d) b'/' then splitnetloc s else ("", c ∷ d ∷ s)

-- `_userinfo`
userinfo : String → Option String × Option String
userinfo netloc = elim (rpartition b'@' netloc).0 [
  | none ↦ (none, none)
  | some info ↦ let (name, password) = partition b':' info in (some name, password)
]

non_empty : String → Option String
non_empty s = if s == "" then none else some s

-- `_hostinfo`: the host and the text of the port.
hostinfo : String → String × Option String
unfolding or_empty non_empty
hostinfo netloc =
    let host = (rpartition b'@' netloc).1 in
    elim (partition b'[' host).1 [
      | none ↦ let (name, port) = partition b':' host in (name, non_empty (or_empty port))
      | some bracketed ↦
          let (inside, behind) = partition b']' bracketed in
          (inside, non_empty (or_empty (partition b':' (or_empty behind)).1))
    ]

-- The host is in lower case, a zone behind `%` as it came.
hostname_of : String → Option String
hostname_of host =
    if host == ""
    then none
    else let (name, zone) = partition b'%' host in
      elim zone [
        | none ↦ some (lower name)
        | some text ↦ some (String.◌++◌ (lower name) ("%" ∷ text))
      ]

-- `_splitparams`: the parameters of the last segment go.
cut_params : String → String
cut_params path =
    let (front, last) = rpartition b'/' path in
    elim front [
      | none ↦ (partition b';' last).0
      | some text ↦ String.◌++◌ text ("/" ∷ (partition b';' last).0)
    ]

brackets_ok : (String → Bool) → String → Bool
brackets_ok is_bracketed netloc =
    if has_char b'[' netloc
    then has_char b']' netloc && is_bracketed netloc
    else not (has_char b']' netloc)

uses_params : String → Bool
uses_params scheme =
    scheme == ""
    || scheme == "http"
    || scheme == "https"
    || scheme == "ftp"
    || scheme == "hdl"
    || scheme == "prospero"
    || scheme == "imap"
    || scheme == "shttp"
    || scheme == "rtspu"
    || scheme == "rtsps"
    || scheme == "rtsp"
    || scheme == "sip"
    || scheme == "sips"
    || scheme == "mms"
    || scheme == "sftp"
    || scheme == "tel"

-- `urlparse(url)`; `none` is the ValueError of a netloc with unsound brackets.
unfoldable pub urlparse : (String → Bool) → String → Option Url
unfolding lstrip_control unsafe_removed split_scheme split_authority hostinfo hostname_of userinfo
    cut_params brackets_ok uses_params or_empty
urlparse is_bracketed url =
    let (scheme, behind) = split_scheme (unsafe_removed (lstrip_control url)) in
    let (netloc, rest) = split_authority behind in
    let (front, fragment) = partition b'#' rest in
    let (path, query) = partition b'?' front in
    let (host, port) = hostinfo netloc in
    if brackets_ok is_bracketed netloc
    then some (record {
      scheme = scheme;
      netloc = netloc;
      path = if uses_params scheme then cut_params path else path;
      query = or_empty query;
      fragment = or_empty fragment;
      username = (userinfo netloc).0;
      password = (userinfo netloc).1;
      hostname = hostname_of host;
      port_text = port;
    })
    else none

all_digits : String → Bool
unfolding is_digit
all_digits [] = true
all_digits (c ∷ s) = is_digit (code c) && all_digits s

-- Whether reading the property `port` raises no ValueError.
unfoldable pub has_port : Url → Bool
unfolding all_digits
has_port u = elim u.port_text [
  | none ↦ true
  | some text ↦
      all_digits text
      && elim (int_of text) [ some (pos n) ↦ leb n 65535 | some (negsuc n) ↦ false | none ↦ false ]
]

urlparse_test :
    urlparse (λ s. true) "HTTPS://me:pw@Host.Example:80/a/b;p?x=1#f"
    ≡ some (record {
      scheme = "https";
      netloc = "me:pw@Host.Example:80";
      path = "/a/b";
      query = "x=1";
      fragment = "f";
      username = some "me";
      password = some "pw";
      hostname = some "host.example";
      port_text = some "80";
    })
unfolding urlparse lower partition rpartition has_char
urlparse_test = refl
