-- ===== src/Stack/Options.antt =====
-- setsockopt of src/ST87M01_CellularStack.cpp, in the build with TLS sockets on the modem and in the one without.
use mbed_ce_st87m.Common.{
  ℕ, ◌≡◌, Bool, true, false, not, ◌||◌, refl, Option, none, some, List, ◌==◌, Bool-cases, inl, inr,
  if◌then◌else◌, ℤ, length, get_or,
}
use mbed_ce_st87m.At.{
  NsapiError, ok, parameter, no_socket, unsupported, Trace, Action, pure, modify, ◌>>=◌, ◌>>◌,
}
use mbed_ce_st87m.At.Keeps.{
  Keeps, Keeps-pure, Keeps-bind, Keeps-if, Keeps-state, Keeps-modify, keeps_rules,
}
use mbed_ce_st87m.Stack.Types.{Proto, Socket, Stack, get_state, set_socket}
use mbed_ce_st87m.Tls.{Library, storage_ram}
use mbed_ce_st87m.Tls.Keys.{add_key}
use mbed_ce_st87m.Tls.Certificates.{add_ca_certificate, add_device_certificate}
use mbed_ce_st87m.Tls.Stateless.{add_key-Keeps, add_certificate_impl-Keeps}

-- NSAPI_TLSSOCKET_LEVEL, and any other level
pub data Level : Type 0 where
  tls_level : Level
  other_level : ℤ → Level

-- The options of the TLS level
pub data TlsOption : Type 0 where
  tls_enable set_hostname set_cacert set_clcert set_clkey : TlsOption
  other_option : ℤ → TlsOption

abbrev pub is_tls_level : Level → Bool
is_tls_level Level.tls_level = true
is_tls_level (Level.other_level n) = false

abbrev pub is_tcp : Proto → Bool
is_tcp Proto.tcp = true
is_tcp _ = false

-- setsockopt of the base class AT_CellularStack
abbrev pub BaseSetsockopt : Type 0 → Type 0
BaseSetsockopt P = Option ℕ → Level → TlsOption → Option (List ℕ) → Action (Stack P) NsapiError

module _ {P : Type 0} where
  -- NSAPI_TLSSOCKET_ENABLE, of a value of the size of a bool
  unfoldable pub enable_tls : ℕ → List ℕ → Action (Stack P) NsapiError
  enable_tls h optval = do
    s ← get_state
    if not (length optval == 1)
        then pure parameter
        else if not (is_tcp (s.sockets h).proto)
        then pure parameter
        else do
          modify (set_socket h (record (s.sockets h) { tls_socket = not (get_or optval 0 0 == 0) }))
          pure ok

  -- An option with data, which is not empty.
  unfoldable pub with_data :
      (Option (List ℕ) → Action (Stack P) NsapiError) → List ℕ → Action (Stack P) NsapiError
  with_data m optval = if length optval == 0 then pure parameter else m (some optval)

  -- The switch over optname.
  unfoldable pub set_tls_option : Library → TlsOption → ℕ → List ℕ → Action (Stack P) NsapiError
  unfolding enable_tls with_data
  set_tls_option lib TlsOption.tls_enable h optval = enable_tls h optval
  set_tls_option lib TlsOption.set_hostname h optval = pure ok
  set_tls_option lib TlsOption.set_cacert h optval = do
    s ← get_state
    with_data (λ cert. add_ca_certificate lib s.sslctx_id cert true) optval
  set_tls_option lib TlsOption.set_clcert h optval = do
    s ← get_state
    with_data (λ cert. add_device_certificate lib s.sslctx_id cert true) optval
  set_tls_option lib TlsOption.set_clkey h optval = do
    s ← get_state
    with_data (λ key. add_key lib s.sslctx_id key storage_ram) optval
  set_tls_option lib (TlsOption.other_option n) h optval = pure unsupported

  -- setsockopt with TLS sockets on the modem. get_tls_provisioning never returns null, and optval has optlen bytes.
  unfoldable pub setsockopt_offloaded :
      Library
      → BaseSetsockopt P
      → Option ℕ
      → Level
      → TlsOption
      → Option (List ℕ)
      → Action (Stack P) NsapiError
  unfolding set_tls_option
  setsockopt_offloaded lib base none level optname optval = pure no_socket
  setsockopt_offloaded lib base (some h) (Level.other_level n) optname optval =
      base (some h) (Level.other_level n) optname optval
  setsockopt_offloaded lib base (some h) Level.tls_level optname none = pure parameter
  setsockopt_offloaded lib base (some h) Level.tls_level optname (some value) =
      set_tls_option lib optname h value

  -- setsockopt without
  unfoldable pub setsockopt :
      BaseSetsockopt P
      → Option ℕ
      → Level
      → TlsOption
      → Option (List ℕ)
      → Action (Stack P) NsapiError
  setsockopt base handle level optname optval =
      if is_tls_level level then pure unsupported else base handle level optname optval

-- No socket but a TCP socket has TLS.
abbrev pub IsTlsOnTcp : {P : Type 0} → Stack P → Type 0
IsTlsOnTcp s = (h : ℕ) → (not (s.sockets h).tls_socket || is_tcp (s.sockets h).proto) ≡ true

or_true : (b : Bool) → (b || true) ≡ true
or_true true = refl
or_true false = refl

if_all : {A : Type 0} (Q : A → Type 0) (b : Bool) (x y : A) → Q x → Q y → Q (if b then x else y)
if_all Q true x y hx hy = hx
if_all Q false x y hx hy = hy

module _ {P : Type 0} where
  enabled-Keeps :
      (h : ℕ) (b : Bool) (sock : Socket)
      → Keeps {S = Stack P} IsTlsOnTcp (
          if not (is_tcp sock.proto)
          then pure parameter
          else do modify (set_socket h (record sock { tls_socket = b })); pure ok)
  enabled-Keeps h b sock = elim (Bool-cases (is_tcp sock.proto)) [
    | inl is_tcp_socket ↦ rw is_tcp_socket (
        Keeps-bind _ _
          (Keeps-modify _ λ s' valid' j.
            if_all {A = Socket} (λ sock'. (not sock'.tls_socket || is_tcp sock'.proto) ≡ true)
              (h == j) _ _ (rw is_tcp_socket (or_true (not b))) (valid' j))
          (λ _. Keeps-pure ok))
    | inr other ↦ rw other (Keeps-pure parameter)
  ]

  enable_tls-IsTlsOnTcp : (h : ℕ) (optval : List ℕ) → Keeps IsTlsOnTcp (enable_tls {P = P} h optval)
  unfolding enable_tls
  enable_tls-IsTlsOnTcp h optval =
      Keeps-state _
        λ s valid. Keeps-if _ _ _ (Keeps-pure parameter) (enabled-Keeps h _ (s.sockets h))

  set_tls_option-Keeps :
      (lib : Library) (optname : TlsOption) (h : ℕ) (optval : List ℕ)
      → Keeps IsTlsOnTcp (set_tls_option {P = P} lib optname h optval)
  unfolding set_tls_option with_data add_ca_certificate add_device_certificate
  set_tls_option-Keeps lib TlsOption.tls_enable h optval = enable_tls-IsTlsOnTcp h optval
  set_tls_option-Keeps lib TlsOption.set_hostname h optval = search keeps_rules
  set_tls_option-Keeps lib TlsOption.set_cacert h optval =
      search (keeps_rules, add_certificate_impl-Keeps) depth 20
  set_tls_option-Keeps lib TlsOption.set_clcert h optval =
      search (keeps_rules, add_certificate_impl-Keeps) depth 20
  set_tls_option-Keeps lib TlsOption.set_clkey h optval =
      search (keeps_rules, add_key-Keeps) depth 20
  set_tls_option-Keeps lib (TlsOption.other_option n) h optval = search keeps_rules

  -- In both builds, setsockopt leaves it so that only TCP sockets have TLS, whatever the option, its value and
  -- the modem's answers are. It is for a setsockopt of the base class that leaves it so too.
  pub setsockopt-IsTlsOnTcp :
      (lib : Library) (base : BaseSetsockopt P) (handle : Option ℕ) (level : Level)
      (optname : TlsOption) (optval : Option (List ℕ)) (s : Stack P) (t : Trace)
      → Keeps IsTlsOnTcp (base handle level optname optval)
      → IsTlsOnTcp s
      → IsTlsOnTcp (setsockopt_offloaded lib base handle level optname optval s t).1
        × IsTlsOnTcp (setsockopt base handle level optname optval s t).1
  unfolding setsockopt_offloaded setsockopt
  setsockopt-IsTlsOnTcp lib base handle level optname optval s t keeps valid = (
    (offloaded handle level optval keeps).at s t valid,
    (Keeps-if (is_tls_level level) _ _ (Keeps-pure unsupported) keeps).at s t valid,
  )
    where
      offloaded :
          (handle' : Option ℕ) (level' : Level) (optval' : Option (List ℕ))
          → Keeps IsTlsOnTcp (base handle' level' optname optval')
          → Keeps IsTlsOnTcp (setsockopt_offloaded lib base handle' level' optname optval')
      offloaded none level' optval' k = Keeps-pure no_socket
      offloaded (some h) (Level.other_level n) optval' k = k
      offloaded (some h) Level.tls_level none k = Keeps-pure parameter
      offloaded (some h) Level.tls_level (some value) k = set_tls_option-Keeps lib optname h value
