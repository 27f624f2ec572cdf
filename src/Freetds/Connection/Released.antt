-- ===== src/Freetds/Connection/Released.antt =====
-- What is left allocated of a connection of the FreeTDS driver.
use libdbi_drivers.Prelude.{
  Bool, true, false, Option, none, some, ◌≡◌, refl, sym, ◌≢◌, ◌⊎◌, inl, inr, Option-cases, Bytes,
}
use mathlib.Core.Path.{subst}
use libdbi_drivers.Prelude.Faults.{◌>>◌, pure, Ensures, Ensures-bind, Ensures-map}
use libdbi_drivers.Prelude.Int.{ℤ, pos, negsuc}
use libdbi_drivers.Freetds.Connection.{
  version_of, CtLib, Held, Connection, absent, present, freed, Conn, Options, or_empty, Action,
  checked, otherwise, with_version, with_port, connect, login, with_cmd, with_con, with_lib,
  with_ctx, dbd_connect, cancelled, disconnect_from, dbd_disconnect,
}

abbrev pub nothing_held : Held
nothing_held = record {
  has_block = false;
  has_ctx = false;
  has_lib = false;
  has_con = false;
  has_cmd = false;
}

abbrev pub all_held : Held
all_held = record {
  has_block = true;
  has_ctx = true;
  has_lib = true;
  has_con = true;
  has_cmd = true;
}

-- The option freetds_version can be read.
abbrev pub IsVersion : Option Bytes → Type 0
IsVersion none = Unit {0}
IsVersion (some str) = version_of str ≢ none

module _ (ct : CtLib) where
  -- A cancel of what goes on succeeds.
  abbrev pub Cancels : Type 0
  Cancels = (w : ct.World) → (ct.cancel w).0 ≡ true

  abbrev Present : Conn ct → Type 0
  Present c = (c.connection ≡ present) × (c.held ≡ all_held)

  abbrev Stays : Action ct ℤ → Type 0
  Stays m = (c : Conn ct) → Present c → Ensures (λ r c'. Present c') (m c)

  otherwise-Stays : (rest : Action ct ℤ) (ok : Bool) → Stays rest → Stays (otherwise ct rest ok)
  otherwise-Stays rest true k = k
  otherwise-Stays rest false k = λ c p. p

  checked-Stays :
      (f : ct.World → Bool × ct.World) (rest : Action ct ℤ) → Stays rest → Stays (checked ct f rest)
  checked-Stays f rest k c p =
      otherwise-Stays rest (f c.world).0 k (record c { world = (f c.world).1 }) p

  with_version-Stays :
      (o : Option Bytes) (rest : Action ct ℤ)
      → IsVersion o
      → Stays rest
      → Stays (with_version ct o rest)
  with_version-Stays none rest v k = k
  with_version-Stays (some str) rest v k = elim (Option-cases (version_of str)) [
    | inl e ↦ absurd (v e)
    | inr (num, e) ↦ rw (e, with_version) (checked-Stays (ct.set_version num) rest k)
  ]

  with_port-Stays :
      (o : Option Bytes) (rest : Action ct ℤ) → Stays rest → Stays (with_port ct o rest)
  with_port-Stays none rest k = k
  with_port-Stays (some str) rest k = checked-Stays (ct.set_port (ct.strtol str)) rest k

  login-Stays : (o : Options) → IsVersion o.freetds_version → Stays (login ct o)
  unfolding login
  login-Stays o v =
      let port = with_port ct o.port (connect ct o) in
      let version = with_version ct o.freetds_version port in
      checked-Stays (ct.set_username (or_empty o.username))
        (checked ct (ct.set_password (or_empty o.password)) version)
        (checked-Stays (ct.set_password (or_empty o.password)) version (
          with_version-Stays o.freetds_version port v (
            with_port-Stays o.port (connect ct o)
              (checked-Stays (ct.connect (or_empty o.host)) (pure (pos 0)) (λ c p. p)))))

  -- The connection is there with all that belongs to it, or an error is returned and nothing is held.
  abbrev pub Connects : ℤ → Conn ct → Type 0
  Connects r c = Present c ⊎ ((r ≡ negsuc 0) × (c.connection ≡ absent) × (c.held ≡ nothing_held))

  with_cmd-Connects :
      (o : Options) (ok : Bool) (w : ct.World)
      → IsVersion o.freetds_version
      → Ensures Connects (
          with_cmd ct o ok (record {
            connection = absent;
            held = record {
              has_block = true;
              has_ctx = true;
              has_lib = true;
              has_con = true;
              has_cmd = false;
            };
            world = w;
          }))
  unfolding with_cmd
  with_cmd-Connects o false w v = inr (refl, refl, refl)
  with_cmd-Connects o true w v =
      Ensures-map (λ r c'. Present c') Connects _ (login-Stays o v _ (refl, refl)) (λ r c' p. inl p)

  with_con-Connects :
      (o : Options) (ok : Bool) (w : ct.World)
      → IsVersion o.freetds_version
      → Ensures Connects (
          with_con ct o ok (record {
            connection = absent;
            held = record {
              has_block = true;
              has_ctx = true;
              has_lib = true;
              has_con = false;
              has_cmd = false;
            };
            world = w;
          }))
  unfolding with_con
  with_con-Connects o false w v = inr (refl, refl, refl)
  with_con-Connects o true w v = with_cmd-Connects o _ _ v

  with_lib-Connects :
      (o : Options) (ok : Bool) (w : ct.World)
      → IsVersion o.freetds_version
      → Ensures Connects (
          with_lib ct o ok (record {
            connection = absent;
            held = record {
              has_block = true;
              has_ctx = true;
              has_lib = false;
              has_con = false;
              has_cmd = false;
            };
            world = w;
          }))
  unfolding with_lib
  with_lib-Connects o false w v = inr (refl, refl, refl)
  with_lib-Connects o true w v = with_con-Connects o _ _ v

  abbrev pub start : ct.World → Conn ct
  start w = record { connection = absent; held = nothing_held; world = w }

  with_ctx-Connects :
      (o : Options) (ok : Bool) (w : ct.World)
      → IsVersion o.freetds_version
      → Ensures Connects (
          with_ctx ct o ok (record {
            connection = absent;
            held = record nothing_held { has_block = true };
            world = w;
          }))
  unfolding with_ctx
  with_ctx-Connects o false w v = inr (refl, refl, refl)
  with_ctx-Connects o true w v = with_lib-Connects o _ _ v

  dbd_connect-Connects :
      (o : Options) (w : ct.World)
      → IsVersion o.freetds_version
      → Ensures Connects (dbd_connect ct o (start w))
  unfolding dbd_connect
  dbd_connect-Connects o w v = with_ctx-Connects o _ _ v

  cancelled-Held :
      (c : Conn ct)
      → c.held ≡ all_held
      → Ensures (λ r c'. c'.held ≡ nothing_held) (cancelled ct true c)
  unfolding cancelled
  cancelled-Held c e =
      subst
        (λ h. Ensures (λ r c'. c'.held ≡ nothing_held) (cancelled ct true (record c { held = h })))
        (sym e) refl

  -- `dbd_disconnect`, where there is a connection.
  abbrev disconnect_if : Connection → Action ct (Unit {0})
  disconnect_if absent = pure tt
  disconnect_if x = dbd_disconnect ct >> pure tt

  unfoldable pub connect_and_disconnect : Options → Action ct (Unit {0})
  unfolding dbd_connect dbd_disconnect
  connect_and_disconnect o = do dbd_connect ct o; λ c. disconnect_if c.connection c

  disconnect_from-Held :
      Cancels
      → (x : Connection) (c : Conn ct) → x ≡ present
      → c.held ≡ all_held
      → Ensures (λ r c'. c'.held ≡ nothing_held) (disconnect_from ct x c)
  disconnect_from-Held cancels absent c e k = cc
  disconnect_from-Held cancels freed c e k = cc
  disconnect_from-Held cancels present c e k =
      subst
        (λ ok.
          Ensures (λ r c'. c'.held ≡ nothing_held)
            (cancelled ct ok (record c { world = (ct.cancel c.world).1 })))
        (sym (cancels c.world)) (cancelled-Held (record c { world = (ct.cancel c.world).1 }) k)

  disconnect_if-Held :
      Cancels
      → (x : Connection) (c : Conn ct) → x ≡ c.connection
      → (r : ℤ) → Connects r c
      → Ensures (λ a c'. c'.held ≡ nothing_held) (disconnect_if x c)
  unfolding dbd_disconnect
  disconnect_if-Held cancels absent c e r (inl (p, k)) = cc
  disconnect_if-Held cancels absent c e r (inr (z, p, k)) = k
  disconnect_if-Held cancels freed c e r (inl (p, k)) = cc
  disconnect_if-Held cancels freed c e r (inr (z, p, k)) = cc
  disconnect_if-Held cancels present c e r (inr (z, p, k)) = cc
  disconnect_if-Held cancels present c e r (inl (p, k)) =
      Ensures-bind (λ r c'. c'.held ≡ nothing_held) (λ a c'. c'.held ≡ nothing_held)
        (dbd_disconnect ct c) _ (disconnect_from-Held cancels c.connection c p k) (λ a c' k. k)

  -- Where the option freetds_version can be read and a cancel succeeds: connecting, wherever that stops, and
  -- then disconnecting if there is a connection, gives back nothing that is not allocated, whatever else
  -- the CT library answers, and in the end nothing is allocated.
  pub connect_and_disconnect-held :
      Cancels
      → (o : Options) (w : ct.World) → IsVersion o.freetds_version
      → Ensures (λ a c'. c'.held ≡ nothing_held) (connect_and_disconnect o (start w))
  unfolding connect_and_disconnect
  connect_and_disconnect-held cancels o w v =
      Ensures-bind Connects (λ a c'. c'.held ≡ nothing_held) (dbd_connect ct o (start w)) _
        (dbd_connect-Connects o w v)
        (λ r c' k. disconnect_if-Held cancels c'.connection c' refl r k)
