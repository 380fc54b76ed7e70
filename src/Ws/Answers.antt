-- ===== src/Ws/Answers.antt =====
-- src/proto-ws.c: how requests to the cloud end.
use knot_service_source.Common.{
  ℕ, zero, suc, ◌+◌, ◌≤◌, ◌≡◌, ◌↔◌, refl, sym, ap, subst, pos, true, false, some, [], ◌∷◌, ◌++◌,
  length, length-append, length-take, take, lookup, is_some, arith, ==_self, Bool-cases,
  Option-cases, inl, inr, Bool,
}
use knot_service_source.Common.Monad.{◌>>=◌, ◌>>◌}
use knot_service_source.Common.Hoare.{Returns, Returns-ok->>=, Returns-weaken}
use knot_service_source.Env.Messages.{Bytes}
use knot_service_source.Env.Raw.{JsonRaw}
use knot_service_source.Ws.Table.{queue_at}
use knot_service_source.Ws.Service.{Service}
use knot_service_source.Ws.Receive.{
  Psd, State, handle_response, response_text, append_text, store_response, client_writeable,
}
use knot_service_source.Ws.Request.{
  Reply, operation_prefix, print_message, answered, request_text, uuid_object, is_none, ws_device,
  ws_mknode, with_parsed, reply_or_stale, reply_or_refused, reset_response, send,
}
use knot_service_source.Ws.Waited.{Until, now, sent, send-sent, request-Until}

abbrev pub device_name : Bytes
device_name = b'd' ∷ b'e' ∷ b'v' ∷ b'i' ∷ b'c' ∷ b'e' ∷ []

abbrev register_name : Bytes
register_name = b'r' ∷ b'e' ∷ b'g' ∷ b'i' ∷ b's' ∷ b't' ∷ b'e' ∷ b'r' ∷ []

module _ (l : Service) where
  -- A socket whose session and websocket are found, and json-c with memory.
  pub record Connected (sock psd : ℕ) (t : Psd) (ws : ℕ) (s : State l) : Type 0 where
    pub found : lookup sock s.wstable ≡ some psd
    pub cell : s.heap psd ≡ some t
    pub listed : queue_at s.wsis t.index ≡ some ws
    pub object : is_none l l.new_object ≡ false
    pub array : is_none l l.new_array ≡ false

  -- The state in which `ws_device` begins to wait.
  unfoldable pub asked_device : ℕ → Psd → ℕ → Bytes → State l → State l
  asked_device psd t ws uuid s =
      sent l (record s { psd = some psd }) psd t ws operation_prefix
        (request_text l (l.new_string device_name) (uuid_object l l.new_object uuid))

  -- The state in which `ws_mknode` begins to wait.
  unfoldable pub asked_node : ℕ → Psd → ℕ → l.Json → State l → State l
  asked_node psd t ws jobj s =
      sent l (record s { psd = some psd }) psd t ws operation_prefix
        (request_text l (l.new_string register_name) (some jobj))

  pub ws_device-waits :
      (sock psd : ℕ) (t : Psd) (ws fuel k : ℕ) (uuid : Bytes) (json : JsonRaw) (s s' : State l)
      → Connected sock psd t ws s
      → Until l (answered l) k (asked_device psd t ws uuid s) s'
      → k ≤ fuel
      → ws_device l fuel sock uuid json s ≡ reply_or_refused l json s'
  unfolding ws_device asked_device
  ws_device-waits sock psd t ws fuel k uuid json s s' c until h =
      rw (c.found, c.object, c.array)
        (request-Until l (record s { psd = some psd }) s' psd t ws operation_prefix
          (request_text l (l.new_string device_name) (uuid_object l l.new_object uuid)) (answered l)
          k fuel json (reset_response l) (reply_or_refused l json) c.cell c.listed until h)

  ws_mknode-waits :
      (sock psd : ℕ) (t : Psd) (ws fuel k : ℕ) (device_json : Bytes) (json : JsonRaw)
      (s s' : State l)
      → Connected sock psd t ws s
      → (jobj : l.Json) → l.tokener_parse (some device_json) ≡ some jobj
      → Until l (answered l) k (asked_node psd t ws jobj s) s'
      → k ≤ fuel
      → ws_mknode l fuel sock device_json json s ≡ reply_or_stale l json s'
  unfolding ws_mknode asked_node
  ws_mknode-waits sock psd t ws fuel k device_json json s s' c jobj parsed until h =
      rw (c.found, ◌>>=◌, with_parsed, parsed)
        (request-Until l (record s { psd = some psd }) s' psd t ws operation_prefix
          (request_text l (l.new_string register_name) (some jobj)) (answered l) k fuel json
          (reset_response l) (reply_or_stale l json) c.cell c.listed until h)

  -- The request is over: there is a result, and no flag is left for the next one.
  unfoldable pub Over : Reply l → State l → Type 0
  Over r s = (is_some r ≡ true) × (s.got_response ≡ false) × (s.connection_error ≡ false)

  pub reply_or_refused-Over :
      (json : JsonRaw) (s : State l) (b : ℕ) (u : Psd)
      → s.psd ≡ some b
      → s.heap b ≡ some u
      → Returns Over (reply_or_refused l json s)
  unfolding reply_or_refused handle_response Returns Over
  reply_or_refused-Over json s b u p q = elim (Bool-cases s.connection_error) [
    | inl e ↦ rw (e) (refl, refl, refl)
    | inr e ↦ elim (Option-cases (l.tokener_parse u.json)) [
      | inl r ↦ rw (e, handle_response, ◌>>=◌, p, q, r, Returns) (refl, refl, refl)
      | inr (jres, r) ↦ rw (e, handle_response, ◌>>=◌, p, q, r, Returns) (refl, refl, refl)
    ]
  ]

  -- A reply that has come before the request is sent, for an earlier one or for none, is returned as the
  -- reply to it: the context is not served at all.
  pub late_reply :
      (sock psd : ℕ) (t : Psd) (ws fuel : ℕ) (uuid : Bytes) (json : JsonRaw) (s : State l)
      → Connected sock psd t ws s
      → s.got_response ≡ true
      → s.connection_error ≡ false
      → (jres : l.Json) → l.tokener_parse t.json ≡ some jres
      → (l.realloc (json.size + (length (response_text l jres) + 1)) (l.on_writable ws s.world)).0
        ≡ true
      → Returns
          (λ r s'.
            (r ≡ some (pos 0, append_text l json (response_text l jres)))
            × (s'.written ≡ s.written)
            × (s'.got_response ≡ false))
          (ws_device l fuel sock uuid json s)
  unfolding asked_device reply_or_refused handle_response Returns print_message
  late_reply sock psd t ws fuel uuid json s c got fine jres parsed memory =
      subst
        (Returns λ r s'.
          (r ≡ some (pos 0, append_text l json (response_text l jres)))
          × (s'.written ≡ s.written)
          × (s'.got_response ≡ false))
        (sym (
          ws_device-waits sock psd t ws fuel 0 uuid json s (asked_device psd t ws uuid s) c
            (now (ground (arith))) (omega arith)))
        (rw (fine, handle_response, ◌>>=◌, ==_self psd, parsed, Returns)
          (ap (λ m. some (store_response l json (response_text l jres) m)) memory, refl, refl))

  -- Where the connection fails while `ws_mknode` waits and the session still holds an earlier reply, the
  -- error is lost: the result is 0 with the text of that reply.
  pub stale_reply :
      (sock psd : ℕ) (t : Psd) (ws fuel k : ℕ) (device_json : Bytes) (json : JsonRaw)
      (s s' : State l)
      → Connected sock psd t ws s
      → (jobj : l.Json) → l.tokener_parse (some device_json) ≡ some jobj
      → Until l (answered l) k (asked_node psd t ws jobj s) s'
      → k ≤ fuel
      → s'.connection_error ≡ true
      → (b : ℕ) (u : Psd) (jres : l.Json) → s'.psd ≡ some b
      → s'.heap b ≡ some u
      → l.tokener_parse u.json ≡ some jres
      → (l.realloc (json.size + (length (response_text l jres) + 1)) s'.world).0 ≡ true
      → Returns
          (λ r s''.
            (r ≡ some (pos 0, append_text l json (response_text l jres)))
            × (s''.connection_error ≡ false))
          (ws_mknode l fuel sock device_json json s)
  unfolding reply_or_stale handle_response Returns
  stale_reply sock psd t ws fuel k device_json json s s' c jobj parsed until h error b u jres p q r
        memory =
      subst
        (Returns λ r s''.
          (r ≡ some (pos 0, append_text l json (response_text l jres)))
          × (s''.connection_error ≡ false))
        (sym (ws_mknode-waits sock psd t ws fuel k device_json json s s' c jobj parsed until h))
        (rw (reply_or_stale, handle_response, ◌>>=◌, p, q, r, Returns)
          (ap (λ m. some (store_response l json (response_text l jres) m)) memory, refl))

take-short : (n : ℕ) (xs : Bytes) → length xs ≤ n → take n xs ≡ xs
take-short zero [] h = refl
take-short zero (x ∷ xs) h = absurd (omega arith)
take-short (suc n) [] h = refl
take-short (suc n) (x ∷ xs) h = ap (λ l. x ∷ l) (take-short n xs (omega arith))

-- Of a message that is cut at 4095 bytes, all is left exactly where it is no longer than that.
take-whole : (xs : Bytes) → (take 4095 xs ≡ xs) ↔ (length xs ≤ 4095)
take-whole xs = (λ e. omega (arith, ap length e, length-take 4095 xs), λ h. take-short 4095 xs h)

writeable-written :
    (l : Service) (s : State l) (psd wsi : ℕ) (t : Psd) (failed : Bool)
    → s.psd ≡ some psd
    → s.heap psd ≡ some t
    → lookup (l.socket_fd wsi) s.wstable ≡ some psd
    → Returns
        (λ _ s'. s'.written ≡ s.written ++ (t.buffer, t.len) ∷ [])
        (client_writeable l wsi failed s)
unfolding Returns client_writeable
writeable-written l s psd wsi t true current cell mapped =
    rw (client_writeable, ◌>>=◌, current, cell, mapped, ==_self psd, Returns) refl
writeable-written l s psd wsi t false current cell mapped =
    rw (client_writeable, ◌>>=◌, current, cell, mapped, ==_self psd, Returns) refl

-- Where a message is printed for the current session and the websocket of that session may be
-- written to next, one call of `lws_write` follows, whether it fails or not: the length that it
-- is given stays in the 4096 bytes of the buffer exactly where prefix and text have at most 4096
-- characters together, and the buffer holds the whole message exactly where they have at most
-- 4095.
pub message_length :
    (l : Service) (s : State l) (psd ws wsi : ℕ) (t : Psd) (prefix text : Bytes) (failed : Bool)
    → s.psd ≡ some psd
    → s.heap psd ≡ some t
    → lookup (l.socket_fd wsi) s.wstable ≡ some psd
    → Returns
        (λ _ s'.
          (buffer : Bytes) × (len : ℕ) × (s'.written ≡ s.written ++ (buffer, len) ∷ [])
          × ((len ≤ 4096) ↔ (length prefix + length text ≤ 4096))
          × ((buffer ≡ prefix ++ text) ↔ (length prefix + length text ≤ 4095)))
        ((send l psd ws prefix text >> client_writeable l wsi failed) s)
unfolding print_message
message_length l s psd ws wsi t prefix text failed current cell mapped =
    Returns-ok->>= Answer (send l psd ws prefix text) (λ _. client_writeable l wsi failed) tt s
      (sent l s psd t ws prefix text) (send-sent l s psd t ws prefix text cell)
      (Returns-weaken
        (λ _ s'.
          s'.written ≡ s.written ++ (take 4095 (prefix ++ text), length (prefix ++ text)) ∷ [])
        Answer (client_writeable l wsi failed (sent l s psd t ws prefix text))
        (writeable-written l (sent l s psd t ws prefix text) psd wsi (print_message prefix text t)
          failed current (rw (==_self psd) refl) mapped)
        λ _ s' w. (_, _, w, bounds.0, bounds.1))
  where
    Answer : Unit {0} → State l → Type 0
    Answer _ s' =
        (buffer : Bytes) × (len : ℕ) × (s'.written ≡ s.written ++ (buffer, len) ∷ [])
        × ((len ≤ 4096) ↔ (length prefix + length text ≤ 4096))
        × ((buffer ≡ prefix ++ text) ↔ (length prefix + length text ≤ 4095))

    n : length (prefix ++ text) ≡ length prefix + length text
    n = length-append prefix text

    bounds :
        ((length (prefix ++ text) ≤ 4096) ↔ (length prefix + length text ≤ 4096))
        × ((take 4095 (prefix ++ text) ≡ prefix ++ text) ↔ (length prefix + length text ≤ 4095))
    bounds =
        let (whole, short) = take-whole (prefix ++ text) in
        (
          (λ h. omega (arith, n), λ h. omega (arith, n)),
          (λ e. omega (arith, n, whole e), λ h. short (omega (arith, n))),
        )
