-- ===== src/Config/Resolved.antt =====
-- What `Resolve` of internal/config/config.go returns.
use rook_servicechannel_gate.Base.{
  ◌≡◌, refl, subst, Option, none, some, List, Result, ok, err, ◌>>=◌, arith,
}
use rook_servicechannel_gate.Base.Text.{Bytes}
use rook_servicechannel_gate.Config.Types.{Config, ConfigError}
use rook_servicechannel_gate.Config.Validate.{validate}
use rook_servicechannel_gate.Config.Usable.{IsUsable, validate-IsUsable_iff}
use rook_servicechannel_gate.Config.Resolve.{Parsers, ResolveError, assemble, checked, resolve}

checked-IsUsable :
    (k : Parsers) (v : Option ConfigError) (a c : Config)
    → validate k.url a ≡ v
    → checked v a ≡ ok c
    → IsUsable k.url c
unfolding checked
checked-IsUsable k none a c fine h =
    let same : a ≡ c = cc in subst (IsUsable k.url) same ((validate-IsUsable_iff k.url a).0 fine)
checked-IsUsable k (some e) a c bad h = absurd (ground arith)

after_assemble :
    (k : Parsers) (a : Result ResolveError Config) (c : Config)
    → (a >>= (λ b. checked (validate k.url b) b)) ≡ ok c
    → IsUsable k.url c
after_assemble k (ok b) c h = checked-IsUsable k (validate k.url b) b c refl h
after_assemble k (err e) c h = absurd (ground arith)

-- A configuration that `Resolve` returns, whatever the settings and the parsers, is usable.
pub resolve-IsUsable :
    (k : Parsers) (vars : List (Bytes × Bytes)) (c : Config)
    → resolve k vars ≡ ok c
    → IsUsable k.url c
unfolding resolve
resolve-IsUsable k vars c h = after_assemble k (assemble k vars) c h
