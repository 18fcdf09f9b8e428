-- ===== src/LoopServer/Once.antt =====
-- Who gets a broadcast or a room message: sendMsg to the entries of a map but the sender.
use go_api_practice.Prelude.{
  false, Option, none, some, List, [], ◌∷◌, map, ◌≡◌, refl, sym, ap, ◌∙◌, inl, inr, if◌then◌else◌,
  String, string_key, same, same_iff, Bool-cases, arith,
}
use go_api_practice.Prelude.Int.{pos}
use go_api_practice.Prelude.Assoc.{lookup, insert, delete, lookup-insert, lookup-delete}
use go_api_practice.Prelude.Values.{All, All-insert, All-delete}
use go_api_practice.Ring.{RespMsg}
use go_api_practice.LoopServer.{Pointers, ReqMsg, type_name, new_resp_msg, others}

-- No key twice, as in every Go map.
abbrev pub Distinct : Pointers → Type 0
Distinct [] = Unit {0}
Distinct ((id, c) ∷ cls) = (lookup id cls ≡ none) × Distinct cls

Distinct-insert :
    (id : String) (c : Option String) (cls : Pointers) → Distinct cls → Distinct (insert id c cls)
unfolding insert lookup
Distinct-insert id c [] h = (refl, tt)
Distinct-insert id c ((j, d) ∷ cls) h = elim (Bool-cases (same j id)) [
  | inl t ↦ rw t (ap (λ k. lookup k cls) (sym ((same_iff j id).0 t)) ∙ h.0, h.1)
  | inr t ↦
      let other : same id j ≡ false = ground (arith, t, same_iff j id, same_iff id j) in
      rw t (lookup-insert id j c cls ∙ rw other h.0, Distinct-insert id c cls h.1)
]

Distinct-delete : (id : String) (cls : Pointers) → Distinct cls → Distinct (delete id cls)
unfolding delete
Distinct-delete id [] h = tt
Distinct-delete id ((j, d) ∷ cls) h = elim (Bool-cases (same j id)) [
  | inl t ↦ rw t (Distinct-delete id cls h.1)
  | inr t ↦
      let other : same id j ≡ false = ground (arith, t, same_iff j id, same_iff id j) in
      rw t (lookup-delete id j cls ∙ rw other h.0, Distinct-delete id cls h.1)
]

-- An entry of a map of clients that points to the client of its key.
abbrev pub Known : String → Option String → Type 0
Known id c = c ≡ some id

-- A map whose entries point to the clients of their keys, with each key once.
abbrev pub KnownOnce : Pointers → Type 0
KnownOnce cls = All Known cls × Distinct cls

pub KnownOnce-insert :
    (id : String) (cls : Pointers) → KnownOnce cls → KnownOnce (insert id (some id) cls)
KnownOnce-insert id cls (k, d) =
    (All-insert Known id (some id) cls refl k, Distinct-insert id (some id) cls d)

pub KnownOnce-delete : (id : String) (cls : Pointers) → KnownOnce cls → KnownOnce (delete id cls)
KnownOnce-delete id cls (k, d) = (All-delete Known id cls k, Distinct-delete id cls d)

-- What was delivered to a client, in order.
abbrev pub received_by : String → List (String × RespMsg) → List RespMsg
received_by id [] = []
received_by id ((to, resp) ∷ sent) =
    let rest = received_by id sent in if same to id then resp ∷ rest else rest

-- The response that carries a request to the clients.
abbrev pub response_to : ReqMsg → RespMsg
response_to msg = record {
  msg_type = type_name msg.msg_type;
  contents = msg.contents;
  sender_id = msg.client_id;
  room_id = msg.room_id;
  err_code = pos 0;
  offset = msg.offset;
}

-- What a client is to get, whose entry in the map is given: one response if it has one and is not the
-- sender.
abbrev pub share : String → ReqMsg → Option (Option String) → List RespMsg
share id msg none = []
share id msg (some c) = if same id msg.client_id then [] else response_to msg ∷ []

-- Every client of the map but the sender gets the response once, and nobody else gets anything.
abbrev pub ReachesOthersOnce : Pointers → ReqMsg → List (String × RespMsg) → Type 0
ReachesOthersOnce cls msg sent = (id : String) → received_by id sent ≡ share id msg (lookup id cls)

abbrev pub to_others : Pointers → ReqMsg → List (String × RespMsg)
to_others cls msg = map (λ e. (e.0, new_resp_msg msg)) (others msg.client_id cls)

received_by-absent :
    (id : String) (cls : Pointers) (msg : ReqMsg)
    → lookup id cls ≡ none
    → received_by id (to_others cls msg) ≡ []
unfolding others lookup
received_by-absent id [] msg e = refl
received_by-absent id ((j, c) ∷ cls) msg e = elim (Bool-cases (same j id)) [
  | inl t ↦ absurd (ground (arith, t, e))
  | inr t ↦
      let rest = received_by-absent id cls msg (sym (rw t refl) ∙ e) in
      elim (Bool-cases (same j msg.client_id)) [ inl u ↦ rw u rest | inr u ↦ rw (u, t) rest ]
]

pub to_others-ReachesOthersOnce :
    (cls : Pointers) (msg : ReqMsg) → Distinct cls → ReachesOthersOnce cls msg (to_others cls msg)
unfolding others lookup new_resp_msg
to_others-ReachesOthersOnce [] msg h id = refl
to_others-ReachesOthersOnce ((j, c) ∷ cls) msg h id = elim (Bool-cases (same j id)) [
  | inl t ↦
      let rest =
        received_by-absent id cls msg (ap (λ k. lookup k cls) (sym ((same_iff j id).0 t)) ∙ h.0) in
      let sender : same id msg.client_id ≡ same j msg.client_id =
        ap (λ k. same k msg.client_id) (sym ((same_iff j id).0 t)) in
      elim (Bool-cases (same j msg.client_id)) [
        | inl u ↦ rw (u, t, sender, u) rest
        | inr u ↦ rw (u, t, sender, u) (ap (λ ms. response_to msg ∷ ms) rest)
      ]
  | inr t ↦
      let rest = to_others-ReachesOthersOnce cls msg h.1 id in
      elim (Bool-cases (same j msg.client_id)) [ inl u ↦ rw (u, t) rest | inr u ↦ rw (u, t) rest ]
]
