-- ===== src/Stack/Session.antt =====
-- open_tcp_session and close_tcp_session, the entry points of the HTTP client. socket_open and
-- socket_close are the base class's: parameters.
use mbed_ce_st87m.Common.{
  ℕ, Bool, true, not, Option, none, some, List, [], ◌∷◌, if◌then◌else◌, ℤ, minus_one, below,
}
use mbed_ce_st87m.At.{
  NsapiError, ok, parameter, is_ok, lock, unlock, Action, pure, modify, call, ◌>>=◌, ◌>>◌, discard,
}
use mbed_ce_st87m.Stack.Types.{
  Proto, IpVersion, Address, Stack, Env, get_state, set_socket, find, max_sockets,
}
use mbed_ce_st87m.Stack.Ip.{is_empty_text, gethostbyname}
use mbed_ce_st87m.Stack.Lifecycle.{socket_close_impl}
use mbed_ce_st87m.Stack.Connect.{socket_connect}

-- The base class's operations, which reach the driver's own through virtual calls.
pub record Base (P : Type 0) : Type 0 where
  pub socket_open : Proto → Action (Stack P) (NsapiError × ℕ)
  pub socket_close : ℕ → Action (Stack P) NsapiError

module _ {P : Type 0} (env : Env P) where
  unfoldable pub close_session : ℤ → Option ℕ → Action (Stack P) NsapiError
  close_session k none = do
    call lock
    s ← get_state
    err ← discard env.modem "#SOCKETCLOSE" "=" (s.cid ∷ k ∷ [])
    call unlock
    pure err
  close_session k (some h) = do call lock; err ← socket_close_impl env k; call unlock; pure err

  -- close_tcp_session
  unfoldable pub close_tcp_session : ℤ → Action (Stack P) NsapiError
  close_tcp_session k =
      if not (below k max_sockets)
      then pure parameter
      else do s ← get_state; close_session k (find env s k)

module _ {P : Type 0} (env : Env P) (base : Base P) where
  -- The part of open_tcp_session behind the name lookup: the error and socket_id_out.
  unfoldable pub connect_session : Address → Bool → Action (Stack P) (NsapiError × ℤ)
  connect_session address use_tls = do
    (err, h) ← base.socket_open Proto.tcp
    if not (is_ok err) then pure (err, minus_one) else do
      if use_tls
          then modify (λ s. set_socket h (record (s.sockets h) { tls_socket = true }) s)
          else pure tt
      err' ← socket_connect env (some h) address
      if not (is_ok err')
          then (do _ ← base.socket_close h; pure (err', minus_one))
          else (do s ← get_state; pure (ok, (s.sockets h).id))

  unfoldable pub resolve : List ℕ → Action (Stack P) (NsapiError × List ℕ)
  resolve host = do
    (err, found) ← gethostbyname env (some host) true IpVersion.ipv4
    pure (err, elim found [ none ↦ [] | some ip ↦ ip ])

  -- open_tcp_session
  unfoldable pub open_tcp_session : Option (List ℕ) → ℕ → Bool → Action (Stack P) (NsapiError × ℤ)
  open_tcp_session none port use_tls = pure (parameter, minus_one)
  open_tcp_session (some host) port use_tls =
      if is_empty_text host then pure (parameter, minus_one) else do
        (err, ip) ← resolve host
        if not (is_ok err)
            then pure (err, minus_one)
            else connect_session (record (env.parse_address ip) { port = port }) use_tls
