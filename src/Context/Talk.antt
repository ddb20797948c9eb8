-- ===== src/Context/Talk.antt =====
-- The conversations of src/ST87M01_CellularContext.cpp, with those of the stack and of the HTTP client
-- that it runs.
pub mod Choose
use mbed_ce_st87m.Common.{
  ℕ, suc, ◌≡◌, Bool, true, false, not, Option, none, some, List, [], ◌∷◌, ℤ, is_neg, if◌then◌else◌,
}
use mbed_ce_st87m.At.{NsapiError, is_ok, Action, Trace, pure, ◌>>=◌, ◌>>◌}
use mbed_ce_st87m.At.Talk.{
  Talk, talk, quiet, reading, Moves, Stays, Moves-if, Moves-pure, Moves-modify, Moves-gets,
  Moves-call_then, Moves-calls_then, Moves-back_then, talk_rules,
}
use mbed_ce_st87m.Http.{Http, stop, detach_socket}
use mbed_ce_st87m.Http.Talk.{
  stop-Tidy, stop_if_started-Tidy, attach_socket-Tidy, detach_socket-Tidy, start-Tidy,
}
use mbed_ce_st87m.Stack.Types.{Proto, IpVersion, Address, Stack}
use mbed_ce_st87m.Stack.Session.{connect_session, resolve, open_tcp_session}
use mbed_ce_st87m.Stack.Talk.{
  get_ip_address-Stays, gethostbyname-Stays, close_all_sockets-Stays, start_stack-Stays,
  close_tcp_session-Stays, socket_connect-Stays,
}
use mbed_ce_st87m.Stack.Talk.Sessions.{IsPoliteBase, open_tcp_session-Stays}
use mbed_ce_st87m.Context.{
  Context, Outside, modem_of, on_stack, on_http, new_stack, stack_for, get_stack, ensure_stack,
  get_st87_stack, close_all_on, close_all, client_for, get_http_client, stop_client,
  close_session_on, http_close, start_session, attach_session, open_on, http_open, read_ip_address,
  get_context_ip_address, delete_client, destroy,
}
use mbed_ce_st87m.Context.Select.{
  active_line, read_line, context_line, select_existing_cid, reuse_line, adopt, reuse_context,
  get_context, deactivate_context,
}

module _ {P A : Type 0} {p q : Talk} where
  on_stack-Moves :
      (stack : Stack P) (m : Action (Stack P) A) → Moves p q m → Moves p q (on_stack stack m)
  unfolding on_stack
  on_stack-Moves stack m mm = record { at = λ c t h. mm.at stack t h }

  pub on_http-Moves :
      (http : Http) (m : Action Http A) → Moves p q m → Moves {S = Context P} p q (on_http http m)
  unfolding on_http
  on_http-Moves http m mm = record { at = λ c t h. mm.at http t h }

-- What the base classes' operations do to the conversation.
pub record IsPolite {P : Type 0} (out : Outside P) : Type 0 where
  pub polite_open : (n : ℕ) (proto : Proto) → Stays (quiet n) (out.base.socket_open proto)
  pub polite_close : (n h : ℕ) → Stays (quiet n) (out.base.socket_close h)
  pub polite_context : (n : ℕ) → Stays (quiet n) out.base_get_context
  pub polite_active : (n : ℕ) (cid : ℤ) → Stays (quiet n) (out.is_active_context cid)

module _ {P : Type 0} (out : Outside P) {n : ℕ} where
  stack_for-Stays : (c : Context P) (s : Option (Stack P)) → Stays (quiet n) (stack_for out c s)
  unfolding stack_for
  stack_for-Stays c none = search (talk_rules, on_stack-Moves, start_stack-Stays) depth 20
  stack_for-Stays c (some s) = search talk_rules depth 20

  ensure_stack-Stays : (s : Option (Stack P)) → Stays (quiet n) (ensure_stack out s)
  unfolding ensure_stack get_stack
  ensure_stack-Stays none = search (talk_rules, stack_for-Stays) depth 20
  ensure_stack-Stays (some s) = search talk_rules

  get_st87_stack-Stays : Stays (quiet n) (get_st87_stack out)
  unfolding get_st87_stack
  get_st87_stack-Stays = search (talk_rules, ensure_stack-Stays) depth 20

  pub close_all-Stays : Stays (quiet n) (close_all out)
  unfolding close_all
  close_all-Stays = Moves-back_then _ _ (Moves-gets _) (λ c. close_all_on-Stays c.stack)
    where
      close_all_on-Stays : (s : Option (Stack P)) → Stays (quiet n) (close_all_on out s)
      close_all_on-Stays none = unfold close_all_on in Moves-pure _
      close_all_on-Stays (some s) =
          unfold close_all_on in on_stack-Moves s _ (close_all_sockets-Stays out.env)

  pub client_for-Stays : (c : Context P) (h : Option Http) → Stays (quiet n) (client_for out c h)
  unfolding client_for
  client_for-Stays c none = search talk_rules depth 20
  client_for-Stays c (some h) = search talk_rules

  stop_client-Stays : (h : Option Http) → Stays (quiet n) (stop_client out h)
  unfolding stop_client
  stop_client-Stays none = Moves-pure _
  stop_client-Stays (some h) =
      on_http-Moves h _ (
        Moves-back_then _ _ (stop-Tidy (modem_of out) n) (λ _. detach_socket-Tidy (modem_of out) n))

  delete_client-Stays : (h : Option Http) → Stays (quiet n) (delete_client out h)
  unfolding delete_client
  delete_client-Stays none = Moves-pure _
  delete_client-Stays (some h) =
      Moves-back_then _ _ (on_http-Moves h _ (stop_if_started-Tidy (modem_of out) n))
        (λ _. Moves-modify _)

  close_session_on-Stays :
      (s : Option (Stack P)) (k : ℤ) → Stays (quiet n) (close_session_on out s k)
  unfolding close_session_on
  close_session_on-Stays none k = Moves-pure _
  close_session_on-Stays (some s) k = on_stack-Moves s _ (close_tcp_session-Stays out.env k)

  pub http_close-Stays : Stays (quiet n) (http_close out)
  unfolding http_close
  http_close-Stays =
      search (talk_rules, stop_client-Stays, get_st87_stack-Stays, close_session_on-Stays) depth 20

  start_session-Stays : (k : ℤ) (h : Http) → Stays (quiet n) (start_session out k h)
  unfolding start_session
  start_session-Stays k h =
      Moves-back_then _ _ (on_http-Moves h _ (start-Tidy (modem_of out) n)) λ err.
        Moves-back_then _ _ (Moves-gets _) λ c.
          Moves-if (is_ok err) _ _ (search talk_rules depth 10) (
            Moves-back_then _ _ (client_for-Stays c c.http_client) λ h'.
              Moves-back_then _ _ (on_http-Moves h' _ (detach_socket-Tidy (modem_of out) n))
                λ _. Moves-back_then _ _ (close_session_on-Stays c.stack k) (λ _. Moves-pure err))

  attach_session-Stays : (k : ℤ) → Stays (quiet n) (attach_session out k)
  unfolding attach_session get_http_client
  attach_session-Stays k = Moves-back_then _ _ (search (talk_rules, client_for-Stays) depth 10) λ h.
      Moves-back_then _ _ (on_http-Moves h _ (attach_socket-Tidy (modem_of out) n k)) λ err.
        Moves-back_then _ _ (Moves-gets _) λ c.
          Moves-if _ _ _
            (Moves-back_then _ _ (close_session_on-Stays c.stack k) (λ _. Moves-pure err))
            (Moves-back_then _ _ (client_for-Stays c c.http_client)
              (λ h'. start_session-Stays k h'))

  pub get_context_ip_address-Stays : (b : Bool) → Stays (quiet n) (get_context_ip_address out b)
  unfolding get_context_ip_address
  get_context_ip_address-Stays false = Moves-pure _
  get_context_ip_address-Stays true =
      Moves-back_then _ _ get_st87_stack-Stays
        λ s. Moves-back_then _ _ (Moves-gets _) (λ c. read_ip_address-Stays c s)
    where
      read_ip_address-Stays :
          (c : Context P) (s : Option (Stack P)) → Stays (quiet n) (read_ip_address out true c s)
      read_ip_address-Stays c none = unfold read_ip_address in Moves-pure _
      read_ip_address-Stays c (some s) =
          unfold read_ip_address in
          Moves-back_then _ _ (on_stack-Moves _ _ (get_ip_address-Stays out.env true))
            (λ answer. Moves-pure _)

  pub destroy-Stays : Stays (quiet n) (destroy out)
  unfolding destroy
  destroy-Stays = search (talk_rules, http_close-Stays, delete_client-Stays) depth 20

  pub deactivate_context-Stays : Stays (quiet n) (deactivate_context out)
  unfolding deactivate_context
  deactivate_context-Stays = search talk_rules depth 20

polite_base : {P : Type 0} (out : Outside P) → IsPolite out → IsPoliteBase out.base
polite_base out base = record { opens = base.polite_open; closes = base.polite_close }

-- What runs on the base classes' operations.
module _ {P : Type 0} (out : Outside P) (base : IsPolite out) {n : ℕ} where
  open_on-Stays :
      (host : Option (List ℕ)) (port : ℕ) (use_tls : Bool) (s : Option (Stack P))
      → Stays (quiet n) (open_on out host port use_tls s)
  unfolding open_on
  open_on-Stays host port use_tls none = Moves-pure _
  open_on-Stays host port use_tls (some s) =
      Moves-back_then _ _
        (on_stack-Moves s _
          (open_tcp_session-Stays out.env out.base (polite_base out base) host port use_tls))
        λ opened.
          Moves-if (not (is_ok opened.0)) _ _ (Moves-pure _) (attach_session-Stays out opened.1)

  pub http_open-Stays :
      (host : Option (List ℕ)) (port : ℕ) (use_tls : Bool)
      → Stays (quiet n) (http_open out host port use_tls)
  unfolding http_open
  http_open-Stays host port use_tls =
      search (talk_rules, http_close-Stays, get_st87_stack-Stays, open_on-Stays) depth 20
