-- ===== src/Client/Network/Answers.antt =====
-- Requests and their answers on the client's network (testclient/network.cpp).
use qing_liao_chat_server.Base.{
  ℕ, ◌≡◌, true, false, none, some, List, [], ◌∷◌, ◌++◌, arith, ◌==◌, ==_iff, Bool-cases, inl, inr,
}
use qing_liao_chat_server.Error.{ok}
use qing_liao_chat_server.Map.{
  Set, lookup, contains, insert, erase, id_key, lookup-insert, lookup-erase,
}
use qing_liao_chat_server.Wire.Endian.{Bytes}
use qing_liao_chat_server.Wire.DataPackage.{DataPackage, string_to_package}
use qing_liao_chat_server.Client.Network.{
  Network, draw_id, send_request, send_data, call_received_stdstring, answer_request,
}

-- The first number that is not in use is the id of the request.
pub draw_id_lem :
    (numbers : List ℕ) (ids : Set ℕ) (id : ℕ)
    → draw_id numbers ids ≡ some id
    → contains id ids ≡ false
unfolding draw_id
draw_id_lem [] ids id drawn = absurd (ground (arith, drawn))
draw_id_lem (n ∷ numbers) ids id drawn = elim (Bool-cases (contains n ids)) [
  | inl used ↦ draw_id_lem numbers ids id (ground (arith, drawn, used))
  | inr new ↦ ground (arith, drawn, new)
]

module _ {F : Type 0} where
  -- What the sending of a request leaves.
  send_request-sent :
      (request : DataPackage) (callback : F) (id : ℕ) (s t : Network F)
      → send_request request callback id s ≡ (ok id, t)
      → (t.request_id_set ≡ insert id tt s.request_id_set)
        × (t.request_id_function_map ≡ insert id callback s.request_id_function_map)
        × (t.called ≡ s.called)
        × (t.broadcast ≡ s.broadcast)
  unfolding send_request send_data
  send_request-sent request callback id s t sent =
      (ground (arith, sent), ground (arith, sent), ground (arith, sent), ground (arith, sent))

  call_received_stdstring-awaited :
      (answer : DataPackage) (callback : F) (wire : Bytes) (t : Network F)
      → string_to_package wire ≡ ok answer
      → answer.request_id == 0 ≡ false
      → contains answer.request_id t.request_id_set ≡ true
      → lookup answer.request_id t.request_id_function_map ≡ some callback
      → call_received_stdstring wire t ≡ (
        ok tt,
        record t {
          called = t.called ++ ((callback, answer) ∷ []);
          request_id_set = erase answer.request_id t.request_id_set;
          request_id_function_map = erase answer.request_id t.request_id_function_map;
        },
      )
  unfolding call_received_stdstring answer_request
  call_received_stdstring-awaited answer callback wire t read nonzero awaited known =
      ground (arith, read, nonzero, awaited, known)

  called-unawaited :
      (answer : DataPackage) (wire : Bytes) (t : Network F)
      → string_to_package wire ≡ ok answer
      → contains answer.request_id t.request_id_set ≡ false
      → (call_received_stdstring wire t).1.called ≡ t.called
  unfolding call_received_stdstring
  called-unawaited answer wire t read unawaited = ground (arith, read, unawaited)

  -- A request that has been sent under a new id, not zero, is answered by the first package that
  -- comes in with this id: the request's function is called with the package, once, nothing is
  -- broadcast, and the tables of requests find the same as before the request. An answer that comes a
  -- second time calls no request's function.
  pub call_received_stdstring-send_request :
      (request answer : DataPackage) (callback : F) (other : ℕ) (wire : Bytes) (s t : Network F)
      → send_request request callback answer.request_id s ≡ (ok answer.request_id, t)
      → string_to_package wire ≡ ok answer
      → answer.request_id == 0 ≡ false
      → contains answer.request_id s.request_id_set ≡ false
      → lookup answer.request_id s.request_id_function_map ≡ none
      → let (r, u) = call_received_stdstring wire t in
        let (r', v) = call_received_stdstring wire u in
        (r ≡ ok tt)
        × (u.called ≡ s.called ++ ((callback, answer) ∷ []))
        × (u.broadcast ≡ s.broadcast)
        × (contains other u.request_id_set ≡ contains other s.request_id_set)
        × (lookup other u.request_id_function_map ≡ lookup other s.request_id_function_map)
        × (v.called ≡ u.called)
  call_received_stdstring-send_request request answer callback other wire s t sent read nonzero new
        unknown =
      let id = answer.request_id in
      let left = send_request-sent request callback id s t sent in
      let in_set = λ (n : ℕ). lookup-insert n id tt s.request_id_set in
      let in_map = λ (n : ℕ). lookup-insert n id callback s.request_id_function_map in
      let out_set = λ (n : ℕ). lookup-erase n id t.request_id_set in
      let out_map = lookup-erase other id t.request_id_function_map in
      let run =
        call_received_stdstring-awaited answer callback wire t read nonzero
          (ground (arith, left, in_set id)) (ground (arith, left, in_map id)) in
      let u = (call_received_stdstring wire t).1 in
      let again = called-unawaited answer wire u read (ground (arith, run, out_set id)) in
      (
        ground (arith, run),
        ground (arith, run, left),
        ground (arith, run, left),
        elim (Bool-cases (id == other)) [
          | inl same ↦
              ground (arith, run, left, out_set other, in_set other, same, new, ==_iff id other)
          | inr differs ↦ ground (arith, run, left, out_set other, in_set other, differs)
        ],
        elim (Bool-cases (id == other)) [
          | inl same ↦
              ground (arith, run, left, out_map, in_map other, same, unknown, ==_iff id other)
          | inr differs ↦ ground (arith, run, left, out_map, in_map other, differs)
        ],
        again,
      )
