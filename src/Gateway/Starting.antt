-- ===== src/Gateway/Starting.antt =====
-- When the program serves, and how it ends.
use rook_servicechannel_gate.Base.{◌≡◌, refl, List, Result, ok, err, ◌⊎◌, inl, inr, ap}
use rook_servicechannel_gate.Base.Text.{Bytes}
use rook_servicechannel_gate.Config.Types.{Config}
use rook_servicechannel_gate.Config.Usable.{IsUsable, validate-IsUsable_iff}
use rook_servicechannel_gate.Config.Resolve.{ResolveError, resolve}
use rook_servicechannel_gate.Config.Resolved.{resolve-IsUsable}
use rook_servicechannel_gate.Config.Load.{LoadError, load_vars}
use rook_servicechannel_gate.Sshbridge.Client.{new_client, unless_invalid, client_for}
use rook_servicechannel_gate.Gateway.{
  World, RunEnd, unloaded, unresolved, serve, with_bridge, with_config, with_vars, run_gateway,
}

pub new_client-serves :
    (w : World) (c : Config)
    → IsUsable w.parsers.url c
    → new_client w.parsers.url c ≡ ok (client_for c)
unfolding new_client unless_invalid
new_client-serves w c u = rw ((validate-IsUsable_iff w.parsers.url c).1 u)

-- How a run can end: the settings cannot be loaded, or they do not resolve, or the server is run with
-- the configuration that they resolve to, which is usable.
abbrev pub Runs : World → RunEnd → Type 0
Runs w end_of_run =
    ((e : LoadError) × (load_vars w.env w.open_file ≡ err e) × (end_of_run ≡ unloaded e))
    ⊎ ((vars : List (Bytes × Bytes)) × (e : ResolveError) × (load_vars w.env w.open_file ≡ ok vars)
        × (resolve w.parsers vars ≡ err e)
        × (end_of_run ≡ unresolved e))
    ⊎ ((vars : List (Bytes × Bytes)) × (c : Config) × (load_vars w.env w.open_file ≡ ok vars)
        × (resolve w.parsers vars ≡ ok c)
        × IsUsable w.parsers.url c
        × (end_of_run ≡ serve w c (client_for c)))

with_config-Runs :
    (w : World) (vars : List (Bytes × Bytes)) (a : Result ResolveError Config)
    → load_vars w.env w.open_file ≡ ok vars
    → resolve w.parsers vars ≡ a
    → Runs w (with_config w a)
unfolding with_config
with_config-Runs w vars (err e) loaded resolved = inr (inl (vars, e, loaded, resolved, refl))
with_config-Runs w vars (ok c) loaded resolved =
    let usable = resolve-IsUsable w.parsers vars c resolved in
    inr
      (inr (vars, c, loaded, resolved, usable, ap (with_bridge w c) (new_client-serves w c usable)))

with_vars-Runs :
    (w : World) (a : Result LoadError (List (Bytes × Bytes)))
    → load_vars w.env w.open_file ≡ a
    → Runs w (with_vars w a)
unfolding with_vars
with_vars-Runs w (err e) loaded = inl (e, loaded, refl)
with_vars-Runs w (ok vars) loaded = with_config-Runs w vars (resolve w.parsers vars) loaded refl

-- A run ends because the settings cannot be loaded, or because they do not resolve, or it has served
-- with the configuration that they resolve to: this is usable, and the SSH client, which validates it
-- again, never refuses it.
pub run_gateway-Runs : (w : World) → Runs w (run_gateway w)
unfolding run_gateway
run_gateway-Runs w = with_vars-Runs w (load_vars w.env w.open_file) refl
