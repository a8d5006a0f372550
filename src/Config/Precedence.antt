-- ===== src/Config/Precedence.antt =====
-- Where a setting comes from: the environment before the file.
use rook_servicechannel_gate.Config.Env
use rook_servicechannel_gate.Base.{
  ℕ, ◌≡◌, refl, ap, Bool, false, ◌||◌, Option, none, some, List, [], ◌∷◌, ◌++◌, Result, ok, err,
  ◌>>=◌, inl, inr, Bool-cases, arith, if◌then◌else◌,
}
use rook_servicechannel_gate.Base.Text.{Bytes, bytes_eq, bytes_eq_iff}
use rook_servicechannel_gate.Base.Dict.{lookup, merge, lookup-put}
use rook_servicechannel_gate.Websocket.Errors.{Failure}
use rook_servicechannel_gate.Config.Load.{
  Scanned, LoadError, without_last, quoted, trim_quotes, put_found, overlay, file_vars, load_vars,
  known_keys,
}

abbrev pub contains : List Bytes → Bytes → Bool
contains [] j = false
contains (k ∷ ks) j = bytes_eq k j || contains ks j

-- The value of the environment, or what the map had.
abbrev pub preferred : Option Bytes → Option Bytes → Option Bytes
preferred (some v) old = some v
preferred none old = old

put_found-lookup :
    (k j : Bytes) (found : Option Bytes) (vars : List (Bytes × Bytes))
    → lookup j (put_found k found vars)
      ≡ (if bytes_eq k j then preferred found (lookup j vars) else lookup j vars)
put_found-lookup k j none vars = ground arith
put_found-lookup k j (some v) vars = lookup-put k j v vars

preferred_twice :
    (found old : Option Bytes) → preferred found (preferred found old) ≡ preferred found old
preferred_twice none old = refl
preferred_twice (some v) old = refl

overlay-lookup :
    (env : Bytes → Option Bytes) (keys : List Bytes) (vars : List (Bytes × Bytes)) (j : Bytes)
    → lookup j (overlay env keys vars)
      ≡ (if contains keys j then preferred (env j) (lookup j vars) else lookup j vars)
unfolding overlay
overlay-lookup env [] vars j = refl
overlay-lookup env (k ∷ keys) vars j = elim (Bool-cases (bytes_eq k j)) [
  | inl same ↦ ground (
    arith,
    overlay-lookup env keys (put_found k (env k) vars) j,
    put_found-lookup k j (env k) vars,
    ap env ((bytes_eq_iff k j).0 same),
    preferred_twice (env j) (lookup j vars),
  )
  | inr other ↦ ground (
    arith,
    overlay-lookup env keys (put_found k (env k) vars) j,
    put_found-lookup k j (env k) vars,
  )
]

after_file :
    (env : Bytes → Option Bytes) (a : Result LoadError (List (Bytes × Bytes)))
    (vars : List (Bytes × Bytes)) (j : Bytes)
    → (a >>= (λ found. ok (overlay env known_keys (merge [] found)))) ≡ ok vars
    → (found : List (Bytes × Bytes)) × (a ≡ ok found)
      × (lookup j vars ≡ (
          if contains known_keys j
          then preferred (env j) (lookup j (merge [] found))
          else lookup j (merge [] found)))
after_file env (err e) vars j h = absurd (ground arith)
after_file env (ok found) vars j h =
    (found, refl, ground (arith, overlay-lookup env known_keys (merge [] found) j))

-- A setting that the gateway knows has its value in the environment, and the one of the configuration
-- file where the environment has none; any other key has the value of the file.
pub load_vars-lookup :
    (env : Bytes → Option Bytes) (open_file : Bytes → Result Failure Scanned)
    (vars : List (Bytes × Bytes)) (j : Bytes)
    → load_vars env open_file ≡ ok vars
    → (found : List (Bytes × Bytes)) × (file_vars open_file (env Env.config_file) ≡ ok found)
      × (lookup j vars ≡ (
          if contains known_keys j
          then preferred (env j) (lookup j (merge [] found))
          else lookup j (merge [] found)))
unfolding load_vars
load_vars-lookup env open_file vars j h =
    after_file env (file_vars open_file (env Env.config_file)) vars j h

without_last-append : (q : ℕ) (s : Bytes) → without_last q (s ++ q ∷ []) ≡ some s
unfolding without_last
without_last-append q [] = ground arith
without_last-append q (c ∷ []) = ground (arith, without_last-append q [])
without_last-append q (c ∷ d ∷ s) = ground (arith, without_last-append q (d ∷ s))

-- A text in double quotes or in single quotes loses exactly these, whatever it contains.
trim_quotes-quoted :
    (s : Bytes) → (trim_quotes (b'"' ∷ s ++ b'"' ∷ []) ≡ s) × (trim_quotes (39 ∷ s ++ 39 ∷ []) ≡ s)
unfolding trim_quotes quoted
trim_quotes-quoted s =
    (ground (arith, without_last-append b'"' s), ground (arith, without_last-append 39 s))
