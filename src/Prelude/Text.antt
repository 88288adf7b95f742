-- ===== src/Prelude/Text.antt =====
-- Texts: the prefix test and its removal, as `str::starts_with` and `str::strip_prefix` have them.
use Prim.Native.Char.{code}
use Prim.Native.String
use Prim.Native.String.{String}
use mathlib.Core.Path.{◌≡◌}
use mathlib.Core.Bool.{Bool}
use mathlib.Core.Option.{Option, none, some}
use text.Mathlib.TextLemmas.{nil-append, cons-append}
use noir_sidecar.Prelude.Tests.{◌==◌, if◌then◌else◌, is_some, ==_self}

unfoldable pub strip_prefix : String → String → Option String
strip_prefix String.[] s = some s
strip_prefix (String.◌∷◌ p ps) String.[] = none
strip_prefix (String.◌∷◌ p ps) (String.◌∷◌ c s) =
    let rest = strip_prefix ps s in if code p == code c then rest else none

abbrev pub starts_with : String → String → Bool
starts_with p s = is_some (strip_prefix p s)

pub strip_prefix-append : (p s : String) → strip_prefix p (String.◌++◌ p s) ≡ some s
unfolding strip_prefix
strip_prefix-append String.[] s = rw nil-append
strip_prefix-append (String.◌∷◌ p ps) s =
    rw (cons-append, ==_self (code p)) (strip_prefix-append ps s)
