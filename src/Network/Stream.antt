-- ===== src/Network/Stream.antt =====
-- The bytes of a connection against the messages that the loop makes of them
-- (server/network/network.cpp).
use qing_liao_chat_server.Base.{
  ℕ, ◌≡◌, ap, sym, ◌∙◌, Bool, true, false, List, [], ◌∷◌, ◌++◌, append-nil, append_assoc, concat,
  All, map, arith, ◌==◌, inl, inr, Bool-cases,
}
use qing_liao_chat_server.Error.{Result, ok, err, Failure, Result-cases}
use qing_liao_chat_server.Wire.Endian.{Bytes}
use qing_liao_chat_server.Wire.DataPackage.{DataPackage, heart_beat_type, string_to_package}
use qing_liao_chat_server.Wire.Package.{write, can_read, read}
use qing_liao_chat_server.Wire.Package.Framing.{IsFrame, read-append, read-Reads, Reads}
use qing_liao_chat_server.Network.{Loop, new_loop, heart_beat, handle, receive, receive_all}

-- The time of a chunk, the chunk, and the package that it stands for.
abbrev pub Arrival : Type 0
Arrival = ℕ × (Bytes × DataPackage)

Reads-ok :
    (buffer message : Bytes) (o : Result Bytes × Bytes)
    → Reads buffer o
    → o.0 ≡ ok message
    → message ++ o.1 ≡ buffer
Reads-ok buffer message (ok m, rest) h e = ground (arith, h, e)
Reads-ok buffer message (err f, rest) h e = absurd (ground (arith, e))

concat-snoc : (xss : List Bytes) (xs : Bytes) → concat (xss ++ (xs ∷ [])) ≡ concat xss ++ xs
concat-snoc [] xs = append-nil xs
concat-snoc (ys ∷ xss) xs =
    ap (λ zs. ys ++ zs) (concat-snoc xss xs) ∙ sym (append_assoc ys (concat xss) xs)

module _ (serves : DataPackage → Bool) where
  handle-frame :
      (now : ℕ) (message : Bytes) (l : Loop)
      → ((handle serves now message l).buffer ≡ l.buffer)
        × ((handle serves now message l).messages ≡ l.messages)
  unfolding handle heart_beat
  handle-frame now message l = (ground arith, ground arith)

  -- A frame that begins a chunk, on an open connection with nothing left over, is the one package that
  -- the chunk leads to: a package other than a heartbeat goes to the socket service, and what stands
  -- behind it waits in the buffer for the next chunk, another whole frame included.
  pub receive-append :
      (now : ℕ) (frame rest : Bytes) (pack : DataPackage) (l : Loop)
      → l.is_open ≡ true
      → l.buffer ≡ []
      → IsFrame frame
      → string_to_package frame ≡ ok pack
      → (pack.type == heart_beat_type) ≡ false
      → let t = receive serves now (frame ++ rest) l in
        (t.handled ≡ l.handled ++ (pack ∷ []))
        × (t.buffer ≡ rest)
        × (t.messages ≡ l.messages ++ (frame ∷ []))
        × (t.is_open ≡ serves pack)
  unfolding receive handle write
  receive-append now frame rest pack l live empty framed parsed other =
      let start : l.buffer ++ (frame ++ rest) ≡ frame ++ rest =
        ap (λ b. b ++ (frame ++ rest)) empty in
      let taken = read-append frame rest framed in
      (
        ground (arith, live, start, taken, parsed, other),
        ground (arith, live, start, taken, parsed, other),
        ground (arith, live, start, taken, parsed, other),
        ground (arith, live, start, taken, parsed, other),
      )

  -- How a step ends, on an open connection.
  receive-waits :
      (now : ℕ) (chunk : Bytes) (l : Loop)
      → l.is_open ≡ true
      → can_read (l.buffer ++ chunk) ≡ false
      → receive serves now chunk l ≡ record l { buffer = l.buffer ++ chunk }
  unfolding receive write
  receive-waits now chunk l live short = ground (arith, live, short)

  receive-reads :
      (now : ℕ) (chunk message : Bytes) (l : Loop)
      → l.is_open ≡ true
      → can_read (l.buffer ++ chunk) ≡ true
      → (read (l.buffer ++ chunk)).0 ≡ ok message
      → receive serves now chunk l
        ≡ handle serves now message (record l {
          buffer = (read (l.buffer ++ chunk)).1;
          messages = l.messages ++ (message ∷ []);
        })
  unfolding receive write
  receive-reads now chunk message l live ready taken = ground (arith, live, ready, taken)

  receive-fails :
      (now : ℕ) (chunk : Bytes) (e : Failure) (l : Loop)
      → l.is_open ≡ true
      → can_read (l.buffer ++ chunk) ≡ true
      → (read (l.buffer ++ chunk)).0 ≡ err e
      → receive serves now chunk l ≡ record l { is_open = false; buffer = l.buffer ++ chunk }
  unfolding receive write
  receive-fails now chunk e l live ready failed = ground (arith, live, ready, failed)

  receive-live :
      (now : ℕ) (chunk : Bytes) (l : Loop)
      → (receive serves now chunk l).is_open ≡ true
      → l.is_open ≡ true
  unfolding receive
  receive-live now chunk l live = elim (Bool-cases l.is_open) [
    | inl before ↦ before
    | inr closed ↦ ground (arith, closed, live)
  ]

  -- A step on an open connection loses no byte and makes none up: the messages read so far and the
  -- buffer, one after the other, are what they were, with the chunk behind it.
  receive_conserves :
      (now : ℕ) (chunk : Bytes) (l : Loop)
      → l.is_open ≡ true
      → let t = receive serves now chunk l in
        concat t.messages ++ t.buffer ≡ (concat l.messages ++ l.buffer) ++ chunk
  receive_conserves now chunk l live =
      let b = l.buffer ++ chunk in
      let all = sym (append_assoc (concat l.messages) l.buffer chunk) in
      elim (Bool-cases (can_read b)) [
        | inr short ↦
            ap (λ t. concat t.messages ++ t.buffer) (receive-waits now chunk l live short) ∙ all
        | inl ready ↦ elim (Result-cases (read b).0) [
          | inr (e, failed) ↦
              ap (λ t. concat t.messages ++ t.buffer)
                (receive-fails now chunk e l live ready failed)
              ∙ all
          | inl (message, taken) ↦
              let mid : Loop = record l {
                buffer = (read b).1;
                messages = l.messages ++ (message ∷ []);
              } in
              ap (λ t. concat t.messages ++ t.buffer)
                (receive-reads now chunk message l live ready taken)
              ∙ ap (λ m. concat m ++ (handle serves now message mid).buffer)
                  (handle-frame now message mid).1
              ∙ ap (λ x. concat (l.messages ++ (message ∷ [])) ++ x)
                  (handle-frame now message mid).0
              ∙ ap (λ x. x ++ (read b).1) (concat-snoc l.messages message)
              ∙ append_assoc (concat l.messages) message (read b).1
              ∙ ap (λ x. concat l.messages ++ x) (Reads-ok b message (read b) (read-Reads b) taken)
              ∙ all
        ]
      ]

  receive_all-live :
      (chunks : List (ℕ × Bytes)) (l : Loop)
      → (receive_all serves chunks l).is_open ≡ true
      → l.is_open ≡ true
  unfolding receive_all
  receive_all-live [] l live = live
  receive_all-live ((now, chunk) ∷ chunks) l live =
      receive-live now chunk l (receive_all-live chunks (receive serves now chunk l) live)

  receive_all_conserves :
      (chunks : List (ℕ × Bytes)) (l : Loop)
      → (receive_all serves chunks l).is_open ≡ true
      → let t = receive_all serves chunks l in
        concat t.messages ++ t.buffer
        ≡ (concat l.messages ++ l.buffer) ++ concat (map (λ entry. entry.1) chunks)
  unfolding receive_all
  receive_all_conserves [] l live = sym (append-nil (concat l.messages ++ l.buffer))
  receive_all_conserves ((now, chunk) ∷ chunks) l live =
      let t = receive serves now chunk l in
      let rest = concat (map (λ entry. entry.1) chunks) in
      receive_all_conserves chunks t live
      ∙ ap (λ x. x ++ rest)
          (receive_conserves now chunk l
            (receive-live now chunk l (receive_all-live chunks t live)))
      ∙ append_assoc (concat l.messages ++ l.buffer) chunk rest

  -- On a connection that is open after any sequence of chunks, no byte has been lost, repeated or
  -- reordered: the messages that were read, one after the other, with the bytes that wait in the
  -- buffer, are the chunks, one after the other.
  pub concat-receive_all :
      (started : ℕ) (chunks : List (ℕ × Bytes))
      → (receive_all serves chunks (new_loop started)).is_open ≡ true
      → let t = receive_all serves chunks (new_loop started) in
        concat t.messages ++ t.buffer ≡ concat (map (λ entry. entry.1) chunks)
  concat-receive_all started chunks live = receive_all_conserves chunks (new_loop started) live

  -- A chunk that is one frame of a package that is served.
  abbrev pub Arrives : Arrival → Type 0
  Arrives (now, (frame, pack)) =
      IsFrame frame
      × (string_to_package frame ≡ ok pack)
      × ((pack.type == heart_beat_type) ≡ false)
      × (serves pack ≡ true)

  -- Frames that arrive one to a chunk on an open connection with nothing left over are served all,
  -- in their order; the connection stays open and nothing is left over.
  pub handled-receive_all :
      (arrivals : List Arrival) (l : Loop)
      → l.is_open ≡ true
      → l.buffer ≡ []
      → All Arrives arrivals
      → let t = receive_all serves (map (λ a. (a.0, a.1.0)) arrivals) l in
        (t.handled ≡ l.handled ++ map (λ a. a.1.1) arrivals) × (t.buffer ≡ []) × (t.is_open ≡ true)
  unfolding receive_all
  handled-receive_all [] l live empty arrive = (sym (append-nil l.handled), empty, live)
  handled-receive_all ((now, (frame, pack)) ∷ arrivals) l live empty (first, arrive) =
      let t = receive serves now frame l in
      let (framed, parsed, other, served) = first in
      let whole : frame ++ [] ≡ frame = append-nil frame in
      let (handled, left, _, still) =
        receive-append now frame [] pack l live empty framed parsed other in
      let at = λ (A : Type 0) (f : Loop → A). ap (λ c. f (receive serves now c l)) (sym whole) in
      let (all, none_left, end) =
        handled-receive_all arrivals t (at Bool (λ x. x.is_open) ∙ still ∙ served)
          (at Bytes (λ x. x.buffer) ∙ left) arrive in
      (
        all
            ∙ ap (λ h. h ++ map (λ a. a.1.1) arrivals)
                (at (List DataPackage) (λ x. x.handled) ∙ handled)
            ∙ append_assoc l.handled (pack ∷ []) (map (λ a. a.1.1) arrivals),
        none_left,
        end,
      )
