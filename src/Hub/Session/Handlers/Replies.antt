-- ===== src/Hub/Session/Handlers/Replies.antt =====
-- What the reader loop sends.
use dn42_utils.Base.{
  ℕ, suc, ◌≤◌, ◌+◌, String, ◌≡◌, refl, arith, Bool, true, Option, none, some, List, [], ◌∷◌, length,
  length-append,
}
use dn42_utils.Json.{Fields}
use dn42_utils.Database.Schema.{BgpEntry, IbgpEntry, NodeBlock}
use dn42_utils.Validators.{TextLibrary}
use dn42_utils.Decisions.Interface.{PeerServices}
use dn42_utils.Ws.{Envelope, JsonLibrary, Decoded, decoded, malformed, decode}
use dn42_utils.Hub.Session.{Session, error_frame, Answer, done, failed, pure, ◌>>=◌, send, suppress}
use dn42_utils.Hub.Session.Handlers.{
  maybe_push_desired, handle_proposal, handle_report, submit_parts, submit_report_parts,
  dispatch_envelope, dispatch, read_frame, reader_loop, or_internal,
}
use dn42_utils.Hub.Session.Handlers.Talks.{
  After, Calm-change_conn, Calm-get_conn, Calm-pure, Calm-to_thread, Sent, Talks, Talks-first,
  Talks-if, Talks-send, Talks-then, Talks-try, touch-Calm,
}

module _ (hexdigest : String → List BgpEntry → List IbgpEntry → Option NodeBlock → String)
    (rpartition : String → String × (String × String)) where
  forced_push-Talks :
      (now : String) (re : Option String)
      → Talks (maybe_push_desired hexdigest rpartition now true re)
  unfolding maybe_push_desired
  forced_push-Talks now re = Talks-then _ _ Calm-get_conn λ conn.
      Talks-then _ _ (Calm-to_thread _) λ fingerprint.
        Talks-then _ _ (Calm-to_thread _)
          λ state. Talks-first _ _ (Talks-send _) λ _. Calm-change_conn _

  module _ (lib : TextLibrary) (services : PeerServices) (json : JsonLibrary)
      (with_config : Bool) where
    submit_parts-Talks :
        (now : String) (clock : ℕ) (env : Envelope) (parts : Option (String × (Fields × String)))
        → Talks
            (submit_parts hexdigest rpartition lib services json with_config now clock env parts)
    submit_parts-Talks now clock env none = Talks-send _
    submit_parts-Talks now clock env (some (kind, (payload, source))) =
        Talks-then _ _ Calm-get_conn λ conn.
          Talks-try _ _ _ (λ p. Talks-first _ _ (Talks-send _) (λ _. touch-Calm now clock))
            (Calm-pure tt)

    submit_report_parts-Talks :
        (now : String) (clock : ℕ) (env : Envelope) (parts : Option (String × Fields))
        → Talks (
            submit_report_parts hexdigest rpartition lib services json with_config now clock env
              parts)
    submit_report_parts-Talks now clock env none = Talks-send _
    submit_report_parts-Talks now clock env (some (kind, payload)) =
        Talks-then _ _ Calm-get_conn λ conn.
          Talks-try _ _ _ (λ r. Talks-first _ _ (Talks-send _) (λ _. touch-Calm now clock))
            (Calm-pure tt)

    dispatch_envelope-Talks :
        (now : String) (clock : ℕ) (d : Decoded Envelope)
        → Talks (dispatch_envelope hexdigest rpartition lib services json with_config now clock d)
    unfolding handle_proposal handle_report
    dispatch_envelope-Talks now clock (malformed message) = Talks-send _
    dispatch_envelope-Talks now clock (decoded env) =
        search
          (
            Talks-send, Talks-if, Talks-first, touch-Calm, forced_push-Talks, submit_parts-Talks,
            submit_report_parts-Talks,
          )
          depth 12

    or_internal-answers :
        (s : Session) (r : Answer (Unit {0})) (s' : Session)
        → After s s' × Sent r (length s.sent) s'
        → (suc (length s.sent)
            ≤ length (or_internal hexdigest rpartition lib services json with_config r s').1.sent)
          × ((or_internal hexdigest rpartition lib services json with_config r s').1.send_faults
              ≡ [])
    unfolding suppress pure send
    or_internal-answers s (done a) s' (h, k) = (k, h.0)
    or_internal-answers s (failed e) s' (h, k) =
        let count = length-append s'.sent (error_frame "internal" "服务端内部错误" none ∷ []) in
        rw h.0 (omega arith, refl)

    -- One frame is answered, and takes no later `send` with it.
    read_frame_replies :
        (now : String) (clock : ℕ) (raw : String) (s : Session)
        → s.send_faults ≡ []
        → (suc (length s.sent)
            ≤ length
                (read_frame hexdigest rpartition lib services json with_config now clock raw
                  s).1.sent)
          × ((read_frame hexdigest rpartition lib services json with_config now clock raw
                s).1.send_faults
              ≡ [])
    unfolding read_frame dispatch suppress
    read_frame_replies now clock raw s alive =
        or_internal-answers s _ _
          ((dispatch_envelope-Talks now clock (decode json now raw)).at s alive)

    read_frame_done :
        (now : String) (clock : ℕ) (raw : String) (s : Session)
        → (read_frame hexdigest rpartition lib services json with_config now clock raw s).0
          ≡ done tt
    unfolding read_frame suppress pure
    read_frame_done now clock raw s = ground arith

    -- While no send fails, the reader loop sends at least one frame for every frame that a node
    -- sends, well-formed or not and whatever its version, whatever the services behind it do and
    -- whichever statements fail: no frame ends the loop or goes without an answer.
    pub reader_loop_replies :
        (frames : List (String × (ℕ × String))) (s : Session)
        → s.send_faults ≡ []
        → length s.sent + length frames
          ≤ length (reader_loop hexdigest rpartition lib services json with_config frames s).1.sent
    unfolding reader_loop ◌>>=◌ pure
    reader_loop_replies [] s alive = omega arith
    reader_loop_replies ((now, (clock, raw)) ∷ frames) s alive =
        let (answered, alive') = read_frame_replies now clock raw s alive in
        let rest =
          reader_loop_replies frames
            (read_frame hexdigest rpartition lib services json with_config now clock raw s).1
            alive' in
        rw (read_frame_done now clock raw s) (omega arith)
