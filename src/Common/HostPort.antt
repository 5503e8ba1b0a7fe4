-- ===== src/Common/HostPort.antt =====
-- Go's net.SplitHostPort, for the addresses that the program takes apart.
use Prim.Native.Char.{code}
use Prim.Native.String.{String, ◌++◌}
use text.Mathlib.TextLemmas.{nil-append, cons-append}
use mathlib.Core.Path.{◌≡◌, refl, ap, ◌∙◌}
use mathlib.Core.Bool.{false, ◌||◌, ◌&&◌, not}
use mathlib.Core.Option.{Option, none, some}
use native.Mathlib.Omega.{arith}
use distributed_framework.Common.Decimal.{has_code}
use distributed_framework.Common.Tests.{nat_eq, if◌then◌else◌}

-- The texts before and behind the last colon.
split_last_colon : String → Option (String × String)
split_last_colon String.[] = none
split_last_colon (String.◌∷◌ c s) = elim (split_last_colon s) [
  | some (h, p) ↦ some (String.◌∷◌ c h, p)
  | none ↦ if nat_eq (code c) b':' then some (String.[], s) else none
]

-- The texts before and behind the first closing bracket.
split_bracket : String → Option (String × String)
split_bracket String.[] = none
split_bracket (String.◌∷◌ c s) =
    if nat_eq (code c) b']'
    then some (String.[], s)
    else elim (split_bracket s) [ none ↦ none | some (h, r) ↦ some (String.◌∷◌ c h, r) ]

-- What is behind the closing bracket must be the last colon and the port.
bracketed : String × String → Option (String × String)
unfolding has_code
bracketed (host, String.[]) = none
bracketed (host, String.◌∷◌ c port) =
    if nat_eq (code c) b':'
      && not (has_code b':' port || has_code b'[' host || has_code b'[' port || has_code b']' port)
    then some (host, port)
    else none

plain : String × String → Option (String × String)
unfolding has_code
plain (host, port) =
    if has_code b':' host
      || has_code b'[' host
      || has_code b'[' port
      || has_code b']' host
      || has_code b']' port
    then none
    else some (host, port)

-- `none` is an error, with which host and port are empty.
unfoldable pub split_host_port : String → Option (String × String)
unfolding split_last_colon split_bracket bracketed plain
split_host_port String.[] = none
split_host_port (String.◌∷◌ c s) =
    if nat_eq (code c) b'['
    then (elim (split_bracket s) [ none ↦ none | some hr ↦ bracketed hr ])
    else (elim (split_last_colon (String.◌∷◌ c s)) [ none ↦ none | some hp ↦ plain hp ])

-- A text of a host or a port in which nothing is quoted.
abbrev pub IsPlain : String → Type 0
IsPlain s = (has_code b':' s ≡ false) × (has_code b'[' s ≡ false) × (has_code b']' s ≡ false)

no_colon : (s : String) → has_code b':' s ≡ false → split_last_colon s ≡ none
unfolding split_last_colon has_code
no_colon String.[] h = refl
no_colon (String.◌∷◌ c s) h = ground (arith, no_colon s)

colon-append : (p : String) → ":" ++ p ≡ String.◌∷◌ ":" p
colon-append p = cons-append ":" String.[] p ∙ ap (String.◌∷◌ ":") (nil-append p)

split-append :
    (h p : String) → has_code b':' p ≡ false → split_last_colon (h ++ ":" ++ p) ≡ some (h, p)
unfolding split_last_colon
split-append String.[] p n =
    ap split_last_colon (nil-append (":" ++ p) ∙ colon-append p) ∙ ground (arith, no_colon p n)
split-append (String.◌∷◌ c h) p n =
    ap split_last_colon (cons-append c h (":" ++ p)) ∙ ground (arith, split-append h p n)

pub split_host_port-plain :
    (h p : String) → IsPlain h → IsPlain p → split_host_port (h ++ ":" ++ p) ≡ some (h, p)
unfolding split_host_port
split_host_port-plain String.[] p x y =
    ap split_host_port (nil-append (":" ++ p) ∙ colon-append p) ∙ ground (arith, no_colon p y.0)
split_host_port-plain (String.◌∷◌ c h) p x y =
    ap split_host_port (cons-append c h (":" ++ p)) ∙ ground (arith, split-append h p y.0)
