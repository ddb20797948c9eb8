-- ===== src/Stack/Talk/Entry.antt =====
-- The conversations of every way into the stack.
use mbed_ce_st87m.Common.{ℕ, ◌≡◌, Option, none, some, List, [], ◌∷◌}
use mbed_ce_st87m.At.{Trace}
use mbed_ce_st87m.At.Talk.{talk, quiet, Stays, Moves-pure, Moves-back_then, talk_rules}
use mbed_ce_st87m.Stack.Types.{Stack, Env}
use mbed_ce_st87m.Stack.Lifecycle.{create_tls_socket}
use mbed_ce_st87m.Stack.Entry.{Around, Entry, entered_at, enter}
use mbed_ce_st87m.Stack.Options.{Level, TlsOption}
use mbed_ce_st87m.Stack.Talk.Sessions.{
  IsPoliteBase, open_tcp_session-Stays, setsockopt-Stays, setsockopt_offloaded-Stays,
}
use mbed_ce_st87m.Stack.Events.{wake_socket, wake_sockets, txfull_event_timeout}
use mbed_ce_st87m.Stack.Talk.{
  get_ip_address-Stays, gethostbyname-Stays, close_all_sockets-Stays, start_stack-Stays,
  end_stack-Stays, close_tcp_session-Stays, socket_connect-Stays, create_socket_impl-Stays,
  socket_close_impl-Stays,
}
use mbed_ce_st87m.Stack.Talk.Traffic.{
  socket_sendto_impl-Stays, socket_recvfrom_impl-Stays, urc_iprecv-Stays, urc_socketclosed-Stays,
}

-- What the base class does to the conversation.
pub record IsPoliteAround {P : Type 0} (around : Around P) : Type 0 where
  pub polite_base : IsPoliteBase around.base
  pub polite_options :
      (n : ℕ) (h : Option ℕ) (level : Level) (name : TlsOption) (value : Option (List ℕ))
      → Stays (quiet n) (around.base_setsockopt h level name value)

module _ {P : Type 0} (env : Env P) {n : ℕ} where
  wake_sockets-Stays : (slots : List (Option ℕ)) → Stays (quiet n) (wake_sockets env slots)
  unfolding wake_sockets wake_socket
  wake_sockets-Stays [] = Moves-pure _
  wake_sockets-Stays (none ∷ slots) =
      Moves-back_then _ _ (Moves-pure _) (λ _. wake_sockets-Stays slots)
  wake_sockets-Stays (some h ∷ slots) =
      Moves-back_then _ _ (search talk_rules depth 20) (λ _. wake_sockets-Stays slots)

  txfull_event_timeout-Stays : Stays (quiet n) (txfull_event_timeout env)
  unfolding txfull_event_timeout
  txfull_event_timeout-Stays = search (talk_rules, wake_sockets-Stays) depth 20

module _ {P : Type 0} (env : Env P) (around : Around P) (polite : IsPoliteAround around) where
  enter-Stays : (e : Entry) (n : ℕ) → Stays (entered_at e n) (enter env around e)
  unfolding enter create_tls_socket
  enter-Stays Entry.start n = start_stack-Stays env
  enter-Stays Entry.finish n = end_stack-Stays env
  enter-Stays (Entry.get_address b) n = search (talk_rules, get_ip_address-Stays) depth 10
  enter-Stays (Entry.resolve_name host b v) n = search (talk_rules, gethostbyname-Stays) depth 10
  enter-Stays (Entry.connect_socket h address) n =
      search (talk_rules, socket_connect-Stays) depth 10
  enter-Stays Entry.close_every n = search (talk_rules, close_all_sockets-Stays) depth 10
  enter-Stays (Entry.open_tcp host port use_tls) n =
      Moves-back_then _ _
        (open_tcp_session-Stays env around.base polite.polite_base host port use_tls)
        (λ _. Moves-pure tt)
  enter-Stays (Entry.close_tcp k) n = search (talk_rules, close_tcp_session-Stays) depth 10
  enter-Stays (Entry.select_profile ctx) n = search talk_rules
  enter-Stays (Entry.set_option h level name value) n =
      Moves-back_then _ _
        (setsockopt-Stays around.lib around.base_setsockopt h level name value
          (polite.polite_options n h level name value))
        (λ _. Moves-pure tt)
  enter-Stays (Entry.set_option_offloaded h level name value) n =
      Moves-back_then _ _
        (setsockopt_offloaded-Stays around.lib around.base_setsockopt h level name value
          (polite.polite_options n h level name value))
        (λ _. Moves-pure tt)
  enter-Stays (Entry.base_open proto) n =
      Moves-back_then _ _ (polite.polite_base.opens n proto) (λ _. Moves-pure tt)
  enter-Stays (Entry.base_close h) n =
      Moves-back_then _ _ (polite.polite_base.closes n h) (λ _. Moves-pure tt)
  enter-Stays (Entry.create h ctx) n = search (talk_rules, create_socket_impl-Stays) depth 10
  enter-Stays (Entry.create_tls h ctx) n = search (talk_rules, create_socket_impl-Stays) depth 10
  enter-Stays (Entry.close k) n = search (talk_rules, socket_close_impl-Stays) depth 10
  enter-Stays (Entry.send h address payload) n =
      search (talk_rules, socket_sendto_impl-Stays) depth 10
  enter-Stays (Entry.receive h want) n = search (talk_rules, socket_recvfrom_impl-Stays) depth 10
  enter-Stays Entry.data_arrived n = urc_iprecv-Stays env
  enter-Stays Entry.socket_closed n = urc_socketclosed-Stays env
  enter-Stays Entry.timer_fired n = txfull_event_timeout-Stays env

  -- The stack's constructor and destructor, every public and protected operation of it that talks
  -- to the modem, setsockopt in both builds, its handlers of unsolicited result codes and its timer
  -- keep the grammar of the handler's calls, whatever the modem answers and wherever the operation
  -- fails. Each leaves the conversation where it entered it, with the lock held as deep as before:
  -- with no command under way, and with the lock held for the protected operations that the base
  -- class calls so and for create_tls_socket, which takes no lock although it is public; a handler
  -- of an unsolicited result code in the middle of the line that it reads. It is for a base class
  -- whose socket_open, socket_close and setsockopt do the same.
  pub enter-talk :
      (e : Entry) (n : ℕ) (s : Stack P) (t : Trace)
      → talk t ≡ entered_at e n
      → talk (enter env around e s t).2 ≡ entered_at e n
  enter-talk e n s t h = (enter-Stays e n).at s t h
