-- ===== src/Context.antt =====
-- src/ST87M01_CellularContext.cpp: PDP contexts and HTTP sessions. What the base class
-- AT_CellularContext does is a parameter.
pub mod Choice
pub mod Select
pub mod Rank
pub mod Sessions
pub mod Calls
pub mod Talk
pub mod Consistent
pub mod Valid
use mbed_ce_st87m.Common.{
  ℕ, Bool, true, false, not, ◌&&◌, ◌||◌, Option, none, some, List, [], ◌∷◌, ltb, ◌==◌,
  if◌then◌else◌, ℤ, pos, minus_one, is_neg, ◌==ℤ◌, below, take, ◌-◌,
}
use mbed_ce_st87m.At.{
  NsapiError, ok, parameter, no_connection, no_memory, is_ok, Modem, lock, unlock, clear_error,
  resp_stop, resp_start, cmd_start_stop, Action, pure, gets, modify, call, calls, ◌>>=◌, ◌>>◌,
  get_last_error, get_last_device_error, discard, discard_texts, int_of, string_of, each_line,
}
use mbed_ce_st87m.Stack.Types.{Stack, Env, update_at}
use mbed_ce_st87m.Stack.Ip.{get_ip_address}
use mbed_ce_st87m.Stack.Lifecycle.{close_all_sockets}
use mbed_ce_st87m.Stack.Lifetime.{start_stack}
use mbed_ce_st87m.Stack.Session.{Base, open_tcp_session, close_tcp_session}
use mbed_ce_st87m.Http.{Http, attach_socket, detach_socket, start, stop, stop_if_started}
use mbed_ce_st87m.Context.Choice.{
  PdpType, configured_pdp_type, parse_pdp_type, pdp_type_to_str, Line, Chosen, nothing_chosen,
  consider,
}

-- The fields of the context that the driver uses. A null pointer is none.
pub record Context (P : Type 0) : Type 0 where
  pub cid : ℤ
  pub pdp_type : PdpType
  pub cp_in_use : Bool
  pub apn : Option (List ℕ)
  pub found_apn : List ℕ
  pub is_context_active : Bool
  pub is_context_activated : Bool
  pub stack : Option (Stack P)
  pub http_client : Option Http
  pub http_socket_id : ℤ

-- What the context takes from outside: the stack's own surroundings, the base class's get_context
-- and constructor of a stack, the network's is_active_context, the build's default PDP type, and
-- what lies in memory behind the array cid_active.
pub record Outside (P : Type 0) : Type 0 where
  pub env : Env P
  pub base : Base P
  pub base_get_context : Action (Context P) Bool
  pub base_stack : ℤ → PdpType → Stack P
  pub is_active_context : ℤ → Action (Context P) Bool
  pub default_pdp_type : List ℕ
  pub beyond : ℤ → Bool

module _ {P : Type 0} where
  -- A method of the stack, or of the HTTP client, called from the context.
  unfoldable pub on_stack : {A : Type 0} → Stack P → Action (Stack P) A → Action (Context P) A
  on_stack stack m c t =
      let (a, stack', t') = m stack t in (a, record c { stack = some stack' }, t')

  unfoldable pub on_http : {A : Type 0} → Http → Action Http A → Action (Context P) A
  on_http http m c t =
      let (a, http', t') = m http t in (a, record c { http_client = some http' }, t')

  abbrev pub get_context_state : Action (Context P) (Context P)
  get_context_state = gets (λ c. c)

module _ {P : Type 0} (out : Outside P) where
  abbrev pub modem_of : Modem
  modem_of = out.env.modem

  -- The fields after the driver's constructor of a stack, over what the base class's leaves.
  unfoldable pub new_stack : ℤ → PdpType → Stack P
  new_stack cid pdp_type =
      let s = out.base_stack cid pdp_type in
      record s {
        txfull_event_id = 0;
        sslctx_id = out.env.default_sslctx;
        ip_configured = false;
        socket_sslctx = λ k. if below k 7 then minus_one else s.socket_sslctx k;
        rx_buf = λ k. if below k 7 then none else s.rx_buf k;
      }

  unfoldable pub stack_for : Context P → Option (Stack P) → Action (Context P) Bool
  stack_for c none = do on_stack (new_stack c.cid c.pdp_type) (start_stack out.env); pure true
  stack_for c (some stack) = do
    modify (λ c'. record c' { stack = some (record stack { cid = c.cid }) })
    pure true

  abbrev pub is_non_ip : PdpType → Bool
  is_non_ip PdpType.non_ip_pdp = true
  is_non_ip _ = false

  -- get_stack: whether it returns a stack.
  unfoldable pub get_stack : Action (Context P) Bool
  get_stack = do
    c ← get_context_state
    if is_non_ip c.pdp_type || c.cp_in_use then pure false else stack_for c c.stack

  unfoldable pub ensure_stack : Option (Stack P) → Action (Context P) Bool
  ensure_stack none = get_stack
  ensure_stack (some stack) = pure true

  -- get_st87_stack
  unfoldable pub get_st87_stack : Action (Context P) (Option (Stack P))
  get_st87_stack = do
    c ← get_context_state
    _ ← ensure_stack c.stack
    c' ← get_context_state
    pure c'.stack

  unfoldable pub close_all_on : Option (Stack P) → Action (Context P) NsapiError
  close_all_on none = pure ok
  close_all_on (some stack) = on_stack stack (close_all_sockets out.env)

  -- ST87M01_CellularContext::close_all_sockets
  unfoldable pub close_all : Action (Context P) NsapiError
  close_all = do c ← get_context_state; close_all_on c.stack

  unfoldable pub client_for : Context P → Option Http → Action (Context P) Http
  client_for c none = do
    let http : Http = record { cid = c.cid; socket_id = minus_one; http_started = false }
    modify (λ c'. record c' { http_client = some http })
    pure http
  client_for c (some http) = pure http

  -- get_http_client
  unfoldable pub get_http_client : Action (Context P) Http
  get_http_client = do c ← get_context_state; client_for c c.http_client

  unfoldable pub stop_client : Option Http → Action (Context P) (Unit {0})
  stop_client none = pure tt
  stop_client (some http) = on_http http (do _ ← stop modem_of; detach_socket modem_of)

  unfoldable pub close_session_on : Option (Stack P) → ℤ → Action (Context P) NsapiError
  close_session_on none k = pure ok
  close_session_on (some stack) k = on_stack stack (close_tcp_session out.env k)

  -- http_close
  unfoldable pub http_close : Action (Context P) NsapiError
  http_close = do
    c ← get_context_state
    if is_neg c.http_socket_id then pure ok else do
      stop_client c.http_client
      stack ← get_st87_stack
      err ← close_session_on stack c.http_socket_id
      modify (λ c'. record c' { http_socket_id = minus_one })
      pure err

  -- http_open after attach_socket: HTTP is started, or everything is taken back.
  unfoldable pub start_session : ℤ → Http → Action (Context P) NsapiError
  start_session socket_id http = do
    err ← on_http http (start modem_of)
    c ← get_context_state
    if is_ok err then (do modify (λ c'. record c' { http_socket_id = socket_id }); pure ok) else (do
      http' ← client_for c c.http_client
      on_http http' (detach_socket modem_of)
      _ ← close_session_on c.stack socket_id
      pure err)

  -- The client that `new` gives is never null, so that early return of http_open is not here.
  unfoldable pub attach_session : ℤ → Action (Context P) NsapiError
  attach_session socket_id = do
    http ← get_http_client
    err ← on_http http (attach_socket modem_of socket_id)
    c ← get_context_state
    if not (is_ok err)
        then (do _ ← close_session_on c.stack socket_id; pure err)
        else (do http' ← client_for c c.http_client; start_session socket_id http')

  unfoldable pub open_on :
      Option (List ℕ) → ℕ → Bool → Option (Stack P) → Action (Context P) NsapiError
  open_on host port use_tls none = pure no_connection
  open_on host port use_tls (some stack) = do
    (err, socket_id) ← on_stack stack (open_tcp_session out.env out.base host port use_tls)
    if not (is_ok err) then pure err else attach_session socket_id

  -- http_open
  unfoldable pub http_open : Option (List ℕ) → ℕ → Bool → Action (Context P) NsapiError
  http_open host port use_tls = do
    c ← get_context_state
    if not (is_neg c.http_socket_id) then (do _ ← http_close; pure tt) else pure tt
    stack ← get_st87_stack
    open_on host port use_tls stack

  unfoldable pub read_ip_address :
      Bool → Context P → Option (Stack P) → Action (Context P) (NsapiError × Option (List ℕ))
  read_ip_address has_address c none = pure (no_connection, none)
  read_ip_address has_address c (some stack) = do
    (_, ip) ← on_stack (record stack { cid = c.cid }) (get_ip_address out.env has_address)
    pure (ok, ip)

  -- ST87M01_CellularContext::get_ip_address, in a build without PPP: what the stack reports is not
  -- looked at.
  unfoldable pub get_context_ip_address : Bool → Action (Context P) (NsapiError × Option (List ℕ))
  get_context_ip_address false = pure (parameter, none)
  get_context_ip_address true = do
    stack ← get_st87_stack
    c ← get_context_state
    read_ip_address true c stack

  unfoldable pub delete_client : Option Http → Action (Context P) (Unit {0})
  delete_client none = pure tt
  delete_client (some http) = do
    on_http http (stop_if_started modem_of)
    modify (λ c. record c { http_client = none })

  -- The destructor, with the client's.
  unfoldable pub destroy : Action (Context P) (Unit {0})
  destroy = do
    c ← get_context_state
    if is_neg c.http_socket_id then pure tt else (do _ ← http_close; pure tt)
    c' ← get_context_state
    delete_client c'.http_client
