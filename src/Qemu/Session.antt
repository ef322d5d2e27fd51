-- ===== src/Qemu/Session.antt =====
-- What a session on the control socket (`qmp` of src/osbench/qemu.py) reads.
use os_bench.Common.{
  Bool, true, false, not, all, ◌≡◌, refl, ◌↔◌, List, [], ◌∷◌, ◌++◌, inl, inr, Bool-cases,
}
use os_bench.Common.Result.{ok, >>=-eq-ok, ok-injective}
use os_bench.Qemu.Qmp.{
  Line, message, garbled, late, Members, QmpReply, is_reply, read_reply, session,
}

module _ {Message : Type 0} (members : Members Message) where
  abbrev pub messages : List Message → List (Line Message)
  messages [] = []
  messages (m ∷ ms) = message m ∷ messages ms

  -- a message that the loop passes over
  abbrev pub is_event : Message → Bool
  is_event m = not (is_reply members m)

  read_reply-events :
      (events : List Message) (reply : Message) (rest : List (Line Message))
      → all is_event events ≡ true
      → is_reply members reply ≡ true
      → read_reply members (messages events ++ message reply ∷ rest) ≡ ok reply
  read_reply-events [] reply rest quiet h = rw (h) refl
  read_reply-events (m ∷ events) reply rest quiet h = elim (Bool-cases (is_reply members m)) [
    | inl e ↦ absurd (cc (rw (e) at quiet))
    | inr e ↦ rw (e) (read_reply-events events reply rest (rw (e) at quiet) h)
  ]

  -- A reply is the first message that is one.
  pub record IsFirst (reply : Message) (lines : List (Line Message)) : Type 0 where
    pub events : List Message
    pub rest : List (Line Message)
    pub split : lines ≡ messages events ++ message reply ∷ rest
    pub quiet : all is_event events ≡ true
    pub replies : is_reply members reply ≡ true

  read_reply-IsFirst :
      (lines : List (Line Message)) (reply : Message)
      → read_reply members lines ≡ ok reply
      → IsFirst reply lines
  read_reply-IsFirst [] reply h = absurd (cc h)
  read_reply-IsFirst (garbled ∷ lines) reply h = absurd (cc h)
  read_reply-IsFirst (late ∷ lines) reply h = absurd (cc h)
  read_reply-IsFirst (message m ∷ lines) reply h = elim (Bool-cases (is_reply members m)) [
    | inl e ↦
        let same : m ≡ reply = ok-injective (rw (e) at h) in
        rw (← same) (record { events = []; rest = lines; split = refl; quiet = refl; replies = e })
    | inr e ↦
        let f = read_reply-IsFirst lines reply (rw (e) at h) in
        record {
          events = m ∷ f.events;
          rest = f.rest;
          split = rw (← f.split) refl;
          quiet = rw (e) f.quiet;
          replies = f.replies;
        }
  ]

  -- What a session reads: the greeting, the answer to the capabilities, which is no error, events,
  -- and the reply.
  pub record IsSession (r : QmpReply Message) (lines : List (Line Message)) : Type 0 where
    pub capabilities : Message
    pub rest : List (Line Message)
    pub split : lines ≡ message r.greeting ∷ message capabilities ∷ rest
    pub accepted : members.has_error capabilities ≡ false
    pub first : IsFirst r.reply rest

  session-eq_ok :
      (r : QmpReply Message) (lines : List (Line Message))
      → IsSession r lines
      → session members lines ≡ ok r
  unfolding session
  session-eq_ok r lines h =
      let f = h.first in
      rw (h.split, h.accepted, f.split, session)
        (rw (read_reply-events f.events r.reply f.rest f.quiet f.replies) refl)

  session_rest :
      (greeting capabilities : Message) (rest : List (Line Message)) (r : QmpReply Message)
      → session members (message greeting ∷ message capabilities ∷ rest) ≡ ok r
      → IsSession r (message greeting ∷ message capabilities ∷ rest)
  unfolding session
  session_rest greeting capabilities rest r h = elim (Bool-cases (members.has_error capabilities)) [
    | inl bad ↦ absurd (cc (rw (bad, session) at h))
    | inr good ↦
        let (reply, found, built) =
          >>=-eq-ok (read_reply members rest) _ (rw (good, session) at h) in
        let same : record { greeting = greeting; reply = reply } ≡ r = ok-injective built in
        rw (← same) (record {
          capabilities = capabilities;
          rest = rest;
          split = refl;
          accepted = good;
          first = read_reply-IsFirst rest reply found;
        })
  ]

  session-read :
      (lines : List (Line Message)) (r : QmpReply Message)
      → session members lines ≡ ok r
      → IsSession r lines
  unfolding session
  session-read [] r h = absurd (cc h)
  session-read (garbled ∷ lines) r h = absurd (cc h)
  session-read (late ∷ lines) r h = absurd (cc h)
  session-read (message m ∷ []) r h = absurd (cc h)
  session-read (message m ∷ garbled ∷ lines) r h = absurd (cc h)
  session-read (message m ∷ late ∷ lines) r h = absurd (cc h)
  session-read (message m ∷ message c ∷ lines) r h = session_rest m c lines r h

  -- `qmp` returns a greeting and a reply exactly if they are the first message and the first
  -- message after the answer to the capabilities that has a `return` or an `error`: it
  -- passes over events, it returns an error of the command, and raises one of the capabilities.
  pub session_iff :
      (lines : List (Line Message)) (r : QmpReply Message)
      → (session members lines ≡ ok r) ↔ IsSession r lines
  session_iff lines r = (session-read lines r, session-eq_ok r lines)
