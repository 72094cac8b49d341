-- ===== src/HttpServerTask/KeepAlive.antt =====
-- How long a connection is kept alive, whatever the order of the parameters that ask for it.
use wfrest.Base.{
  ℕ, Bool, true, false, List, [], ◌∷◌, Option, none, some, if◌then◌else◌, equal_nocase, Bytes,
  codes, at_most, atoi, ℤ,
}
use Prim.Native.Nat.{min}
use wfrest.HttpCookie.{HttpCookie}
use wfrest.HttpServerTask.{Request, milliseconds, keepalive_max, key_of, val_of}

abbrev after_timeout : Option ℤ → ℕ → ℕ
after_timeout none timeo = timeo
after_timeout (some t) timeo = milliseconds t

-- A count that is used up closes the connection; else the timeout that is asked for counts.
abbrev pub decided : ℕ → Option ℤ → Option ℤ → ℕ → ℕ
decided seq none t timeo = after_timeout t timeo
decided seq (some m) t timeo = if at_most m seq then 0 else after_timeout t timeo

module _ (split : Bytes → ℕ → Bytes × List Bytes) (strip : Bytes → Bytes) where
  -- The value of the first parameter of the name, as a number.
  pub param_value : Bytes → List Bytes → Option ℤ
  param_value name [] = none
  param_value name (kv ∷ params) =
      if equal_nocase (key_of split strip kv) name
      then some (atoi (val_of split strip kv))
      else param_value name params

  abbrev unless_seen : Bool → Option ℤ → Option ℤ
  unless_seen true v = none
  unless_seen false v = v

  abbrev is_timeout : Bytes → Bool
  is_timeout kv = equal_nocase (key_of split strip kv) (codes "timeout")

  abbrev is_max : Bytes → Bool
  is_max kv = equal_nocase (key_of split strip kv) (codes "max")

  -- The timeout that a request asks for, up to the largest, and none if it is not to be kept alive.
  pub asked_timeo : ℕ → Request → ℕ → ℕ
  asked_timeo seq r timeo =
      let params = (split r.req_keep_alive b',').0 ∷ (split r.req_keep_alive b',').1 in
      let asked =
        decided seq (param_value (codes "max") params) (param_value (codes "timeout") params)
          timeo in
      let t = if r.req_has_keep_alive_header then asked else timeo in
      if r.req_is_alive then min keepalive_max t else 0
