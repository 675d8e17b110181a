-- ===== src/Relay/Handler/Registering.antt =====
-- internal/gslistener/handler.go: `handleBlowFishKey` and `handleGameServerAuth`, the packets by which
-- a game server becomes authenticated.
use la2go.Prelude.{
  ℕ, ◌-◌, ◌≤◌, ◌≡◌, ◌≢◌, refl, ◌∙◌, inl, inr, List, ◌∷◌, true, false, Option, none, some, length,
  drop, ltb, ◌==◌, same, same_refl, Bool-cases, Option-cases, ok, arith,
}
use la2go.Crypto.Blowfish.{CipherFactory, new_blowfish_cipher}
use la2go.Registry.Info.{
  GameServerInfo, new_game_server_info, set_id, set_authed, set_port, set_max_players, set_hosts,
}
use la2go.Registry.Table.{
  GameServerTable, get_by_id, register, register_with_first_available_id, put, mark_id_used,
  first_available_id,
}
use la2go.Registry.Table.Search.{Consistent, first_available_id-unregistered}
use la2go.Relay.ClientPackets.{GameServerAuth, parse_blow_fish_key, parse_game_server_auth}
use la2go.Relay.Connection.{gs_connected, gs_bf_connected}
use la2go.Relay.Handler.{
  Relay, Reply, registered_info, finalize_registration, auth_existing, auth_new, auth_game_server,
  handle_blow_fish_key, handle_game_server_auth,
}
use la2go.Registry.Table.Invariant.{entered}
use la2go.Relay.Handler.Table.{
  get_by_id-enter_self, get_by_id-enter_other, get_by_id-update_self, update_info-Consistent,
  get_by_id-update_other, first_available_id-none,
}
use la2go.Relay.Handler.Steps.{
  IsOpen, IsForeign, Takes, wanted, alternate, in_use, none_left, foreign, GsStep, sets_key,
  is_refused, registers, AllSteps, both, bind-AllSteps,
}

module _ (rsa_decrypt : List ℕ → Option (List ℕ)) (new_cipher : CipherFactory) (body : List ℕ)
    (st : Relay) where
  pub blow_fish_key-AllSteps :
      st.conn.state ≡ gs_connected
      → AllSteps rsa_decrypt new_cipher
          (0x00 ∷ body)
          st
          (handle_blow_fish_key rsa_decrypt new_cipher body st)
  unfolding handle_blow_fish_key
  blow_fish_key-AllSteps hs =
      bind-AllSteps rsa_decrypt new_cipher _ st (parse_blow_fish_key body) _ λ encrypted_key parsed.
        elim (Option-cases (rsa_decrypt encrypted_key)) [
          | inl failed ↦ rw failed tt
          | inr (block, got) ↦ rw got (
              both rsa_decrypt new_cipher _ st _ _ (ltb (length block) 40) (λ short. tt)
                (λ long.
                  bind-AllSteps rsa_decrypt new_cipher _ st
                    (new_blowfish_cipher new_cipher (drop (length block - 40) block)) _
                    λ cipher made.
                      sets_key body encrypted_key block cipher refl hs parsed got made refl refl))
        ]

  module _ (pkt : GameServerAuth) (hs : st.conn.state ≡ gs_bf_connected)
      (parsed : parse_game_server_auth body ≡ ok pkt) where
    -- A reply and a state that the packet may give.
    abbrev IsStep : Reply × Relay → Type 0
    IsStep (reply, st') = GsStep rsa_decrypt new_cipher (0x01 ∷ body) st reply st'

    -- The end of a registration, on a table where the entry is in place.
    finalize-GsStep :
        (id : ℕ) (t : GameServerTable) (before : GameServerInfo)
        → Takes pkt st.gs_table id
        → IsOpen pkt.hex_id (get_by_id id st.gs_table)
        → get_by_id id t ≡ some before
        → same before.hex_id pkt.hex_id ≡ true
        → (Consistent st.gs_table → Consistent t)
        → ((i : ℕ) → i ≢ id → get_by_id i t ≡ get_by_id i st.gs_table)
        → IsStep (finalize_registration id pkt (record st { gs_table = t }))
    unfolding finalize_registration registered_info set_authed set_hosts set_max_players set_port
    finalize-GsStep id t before takes free there hex agrees others =
        registers body pkt id refl hs parsed takes
          (record {
            was_open = free;
            entry = registered_info pkt before;
            entered = get_by_id-update_self t id (registered_info pkt) there;
            has_hex_id = hex;
            has_port = refl;
            has_max_players = refl;
            has_hosts = refl;
            authed = refl;
            agrees = λ c. update_info-Consistent t id (registered_info pkt) (agrees c);
            others = λ i h. get_by_id-update_other t id i (registered_info pkt) h ∙ others i h;
          })
          refl refl refl

    -- A new entry under an id that had none.
    put-GsStep :
        (id : ℕ) (info : GameServerInfo)
        → Takes pkt st.gs_table id
        → get_by_id id st.gs_table ≡ none
        → same info.hex_id pkt.hex_id ≡ true
        → IsStep (
            finalize_registration id pkt
              (record st { gs_table = mark_id_used id (put id (some info) st.gs_table) }))
    put-GsStep id info takes free hex =
        finalize-GsStep id _ info takes (rw free tt) (get_by_id-enter_self st.gs_table id info) hex
          (entered st.gs_table id info) (λ i h. get_by_id-enter_other st.gs_table id i info h)

    -- The id belongs to a game server with another hexadecimal id, and the packet takes another.
    alternate-GsStep :
        IsForeign pkt st.gs_table
        → Consistent st.gs_table
        → (existing : GameServerInfo) → same existing.hex_id pkt.hex_id ≡ false
        → pkt.accept_alternate ≡ true
        → IsStep (auth_existing existing pkt st)
    unfolding auth_existing register_with_first_available_id new_game_server_info set_id
    alternate-GsStep other c existing differs takes =
        let t = st.gs_table in
        let least = λ (j : ℕ) (p : 1 ≤ j) (q : j ≤ 127) (e : get_by_id j t ≡ none).
          first_available_id-unregistered t 127 j c p q q e in
        elim (Bool-cases (first_available_id 127 t == 0)) [
          | inl full ↦
              simp (differs, takes, full)
                (is_refused body pkt refl hs parsed
                  (none_left other takes
                    (λ j p q e. let (low, _) = least j p q e in absurd (ground arith)) refl)
                  refl)
          | inr found ↦
              let free = first_available_id-none t 127 c (omega arith) found in
              simp (differs, takes, found)
                (put-GsStep (first_available_id 127 t) _
                  (alternate other takes free
                    (λ j p q e. let (_, (high, _)) = least j p q e in high))
                  free (same_refl pkt.hex_id))
        ]

    same_id-GsStep :
        (existing : GameServerInfo)
        → Consistent st.gs_table
        → get_by_id pkt.id st.gs_table ≡ some existing
        → IsStep (auth_existing existing pkt st)
    same_id-GsStep existing c there = elim (Bool-cases (same existing.hex_id pkt.hex_id)) [
      | inl hex ↦ elim (Bool-cases existing.is_authed) [
        | inl busy ↦
            unfold auth_existing in
            simp (hex, busy)
              (is_refused body pkt refl hs parsed (in_use existing there hex busy refl) refl)
        | inr idle ↦
            unfold auth_existing in
            simp (hex, idle)
              (finalize-GsStep pkt.id st.gs_table existing (wanted refl) (rw there (hex, idle))
                there hex (λ c. c) (λ i h. refl))
      ]
      | inr differs ↦ elim (Bool-cases pkt.accept_alternate) [
        | inl other ↦ alternate-GsStep (existing, there, differs) c existing differs other
        | inr stop ↦
            unfold auth_existing in
            simp (differs, stop)
              (is_refused body pkt refl hs parsed (foreign (existing, there, differs) stop refl)
                refl)
      ]
    ]

    new_id-GsStep : get_by_id pkt.id st.gs_table ≡ none → IsStep (auth_new pkt st)
    unfolding auth_new register new_game_server_info
    new_id-GsStep free =
        rw (auth_new, free) (put-GsStep pkt.id _ (wanted refl) free (same_refl pkt.hex_id))

  pub game_server_auth-AllSteps :
      st.conn.state ≡ gs_bf_connected
      → Consistent st.gs_table
      → AllSteps rsa_decrypt new_cipher (0x01 ∷ body) st (handle_game_server_auth body st)
  unfolding handle_game_server_auth auth_game_server
  game_server_auth-AllSteps hs c =
      bind-AllSteps rsa_decrypt new_cipher _ st (parse_game_server_auth body) _ λ pkt parsed.
        elim (Option-cases (get_by_id pkt.id st.gs_table)) [
          | inl free ↦ rw (auth_game_server, free) (new_id-GsStep pkt hs parsed free)
          | inr (existing, there) ↦
              rw (auth_game_server, there) (same_id-GsStep pkt hs parsed existing c there)
        ]
