-- ===== src/Oracle/Session/Ping.antt =====
-- What `dbd_ping` returns.
use libdbi_drivers.Prelude.{
  ℕ, zero, suc, Bool, true, false, ap, ◌∙◌, inl, inr, Bool-cases, ◌≡◌, refl, codes,
}
use mathlib.Core.Path.{subst}
use libdbi_drivers.Prelude.Faults.{Allows, Allows-bind, Allows-then}
use libdbi_drivers.Prelude.Int.{ℤ, pos, negsuc}
use libdbi_drivers.Oracle.Session.{
  Oci, Conn, ping_value, _oracle_query_to_longlong, connected, with_stmt, pinged, dbd_ping,
  dbd_connect, dbd_disconnect,
}

module _ (oci : Oci) where
  ping_value-zero : (r : ℤ) → ping_value oci r ≡ 0
  ping_value-zero (pos zero) = refl
  ping_value-zero (pos (suc n)) = refl
  ping_value-zero (negsuc n) = refl

  pinged-value : (n : ℕ) (c : Conn oci) → Allows (λ r c'. r ≡ n) (pinged oci n c)
  unfolding pinged
  pinged-value zero c =
      Allows-then (λ r c'. r ≡ 0) (dbd_disconnect oci c) _
        (λ a c'. Allows-then (λ r c'. r ≡ 0) (dbd_connect oci c') _ (λ r c'. ping_value-zero r))
  pinged-value (suc n) c = refl

  connected-world : (c : Conn oci) → Allows (λ a c'. c'.world ≡ c.world) (connected oci c)
  connected-world c = elim (Bool-cases c.is_connected) [ inl e ↦ rw e refl | inr e ↦ rw e tt ]

  with_stmt-world :
      (there : Bool) (c : Conn oci) → Allows (λ a c'. c'.world ≡ c.world) (with_stmt oci there c)
  with_stmt-world false c = tt
  with_stmt-world true c = refl

  -- What SELECT 1 gives on a world, as the number that is made of it.
  abbrev pub answer : oci.World → ℕ
  answer w = oci.unsigned (oci.value (codes "SELECT 1 from dual") w).0

  to_longlong-answer :
      (c : Conn oci)
      → Allows
          (λ n c'. n ≡ answer (oci.alloc_stmt c.world).1)
          (_oracle_query_to_longlong oci (codes "SELECT 1 from dual") c)
  unfolding _oracle_query_to_longlong
  to_longlong-answer c =
      Allows-bind (λ a c'. c'.world ≡ c.world) (λ n c'. n ≡ answer (oci.alloc_stmt c.world).1)
        (connected oci c) _ (connected-world c)
        (λ a c' e.
          Allows-bind (λ a c''. c''.world ≡ (oci.alloc_stmt c'.world).1)
            (λ n c''. n ≡ answer (oci.alloc_stmt c.world).1)
            (with_stmt oci (oci.alloc_stmt c'.world).0
              (record c' { world = (oci.alloc_stmt c'.world).1 }))
            _ (with_stmt-world _ _) (λ b c'' e'. ap answer (e' ∙ ap (λ w. (oci.alloc_stmt w).1) e)))

  -- Unless there is a fault, `dbd_ping` returns the number that SELECT 1 gives, and so 0 after a server that
  -- did not answer, also if it has then connected again.
  pub dbd_ping-value :
      (c : Conn oci) → Allows (λ r c'. r ≡ answer (oci.alloc_stmt c.world).1) (dbd_ping oci c)
  unfolding dbd_ping
  dbd_ping-value c =
      Allows-bind (λ n c'. n ≡ answer (oci.alloc_stmt c.world).1)
        (λ r c'. r ≡ answer (oci.alloc_stmt c.world).1)
        (_oracle_query_to_longlong oci (codes "SELECT 1 from dual") c) _ (to_longlong-answer c)
        (λ n c' e. subst (λ m. Allows (λ r c''. r ≡ m) (pinged oci n c')) e (pinged-value n c'))
