-- ===== src/Oracle/Session/Environments.antt =====
-- The environment handles that connecting and disconnecting leave.
use libdbi_drivers.Prelude.{
  ◌+◌, Bool, true, false, Option, none, some, ◌≡◌, refl, arith, if◌then◌else◌, Bytes,
}
use mathlib.Core.Path.{subst}
use libdbi_drivers.Prelude.Faults.{◌>>◌, Allows, Allows-bind}
use libdbi_drivers.Oracle.Session.{
  Oci, Conn, Action, logged_on, log_on, with_svc, with_err, with_env, dbd_connect, disconnect_if,
  dbd_disconnect,
}

module _ (oci : Oci) where
  logged_on-envs :
      (ok : Bool) (c : Conn oci)
      → Allows (λ r c'. c'.handles.envs ≡ c.handles.envs) (logged_on oci ok c)
  unfolding logged_on
  logged_on-envs false c = refl
  logged_on-envs true c = refl

  log_on-envs :
      (username password sid : Option Bytes) (c : Conn oci)
      → Allows (λ r c'. c'.handles.envs ≡ c.handles.envs) (log_on oci username password sid c)
  unfolding log_on
  log_on-envs none password sid c = tt
  log_on-envs (some username) none sid c = tt
  log_on-envs (some username) (some password) none c = tt
  log_on-envs (some username) (some password) (some sid) c = logged_on-envs _ _

  with_svc-envs :
      (ok : Bool) (c : Conn oci)
      → Allows (λ r c'. c'.handles.envs ≡ c.handles.envs) (with_svc oci ok c)
  unfolding with_svc
  with_svc-envs false c = refl
  with_svc-envs true c = log_on-envs c.username c.password c.sid _

  with_err-envs :
      (ok : Bool) (c : Conn oci)
      → Allows (λ r c'. c'.handles.envs ≡ c.handles.envs) (with_err oci ok c)
  unfolding with_err
  with_err-envs false c = refl
  with_err-envs true c = with_svc-envs (oci.alloc_svc c.world).0 _

  with_env-envs :
      (ok : Bool) (c : Conn oci)
      → Allows
          (λ r c'. c'.handles.envs ≡ c.handles.envs + (if ok then 1 else 0))
          (with_env oci ok c)
  unfolding with_env
  with_env-envs false c = omega arith
  with_env-envs true c = with_err-envs (oci.alloc_err c.world).0 _

  disconnect_if-envs :
      (b : Bool) (c : Conn oci)
      → Allows (λ r c'. c'.handles.envs ≡ c.handles.envs) (disconnect_if oci b c)
  unfolding disconnect_if
  disconnect_if-envs false c = refl
  disconnect_if-envs true c = refl

  -- A connection is made and given up again.
  unfoldable pub connect_and_disconnect : Action oci (Unit {0})
  unfolding dbd_connect dbd_disconnect
  connect_and_disconnect = do dbd_connect oci; dbd_disconnect oci

  -- Connecting and disconnecting leaves the environment handle allocated, if one could be created: unless
  -- there is a fault, there is one more than before.
  pub connect_and_disconnect-envs :
      (c : Conn oci)
      → Allows
          (λ r c'. c'.handles.envs ≡ c.handles.envs + (if (oci.env_create c.world).0 then 1 else 0))
          (connect_and_disconnect c)
  unfolding connect_and_disconnect dbd_connect dbd_disconnect
  connect_and_disconnect-envs c =
      Allows-bind
        (λ r c'. c'.handles.envs ≡ c.handles.envs + (if (oci.env_create c.world).0 then 1 else 0))
        (λ r c'. c'.handles.envs ≡ c.handles.envs + (if (oci.env_create c.world).0 then 1 else 0)) _
        _ (with_env-envs (oci.env_create c.world).0 _)
        (λ r c' e.
          subst (λ n. Allows (λ r c''. c''.handles.envs ≡ n) (disconnect_if oci c'.is_connected c'))
            e (disconnect_if-envs c'.is_connected c'))
