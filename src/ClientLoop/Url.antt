-- ===== src/ClientLoop/Url.antt =====
-- The command that a URL asks for, and what a new connection registers for: parseURLToCmd and
-- processCMD. A path is `none` where the code returns an error.
use Prim.Native.Char.{Char}
use mathlib.Core.List.{List, ◌∷◌}
use go_api_practice.Prelude.{
  Bool, true, false, Option, none, some, ◌≡◌, ◌≢◌, refl, ap, ◌∙◌, String, string_key, same,
  same_iff, if◌then◌else◌, arith, get_elem?,
}
use go_api_practice.Prelude.Split.{split, print, Solid, AllSolid, split-print}
use go_api_practice.Prelude.Run.{Run, done, ◌>>=◌}
use go_api_practice.ClientLoop.{
  RegisterPayload, register_broadcast_cmd, register_room_cmd, unregister_room_cmd, deref,
  msg_type_join_room, msg_type_leave_room, msg_type_room_message, msg_type_broadcast,
  msg_type_direct,
}

abbrev pub slash : Char
slash = "/"

pub record ParsedCmd : Type 0 where
  pub msg_type : String
  pub room_id : String

-- The case of a join or a leave: `res[2]` is out of range if the path has no part for the room.
room_cmd : String → Option String → Run (Option ParsedCmd)
room_cmd msg_type room_id = do
  r ← deref room_id
  done (if same r "" then none else some (record { msg_type = msg_type; room_id = r }))

-- The cases of a broadcast and of a direct message are empty, so they leave the switch for the error
-- after it.
parsed : List String → Option String → Run (Option ParsedCmd)
unfolding room_cmd
parsed res none = done none
parsed res (some msg_type) =
    if same msg_type msg_type_broadcast
    then done none
    else if same msg_type msg_type_direct
    then done none
    else if same msg_type msg_type_room_message
    then done (some (record { msg_type = msg_type; room_id = "" }))
    else if same msg_type msg_type_join_room
    then room_cmd msg_type (get_elem? res 2)
    else if same msg_type msg_type_leave_room
    then room_cmd msg_type (get_elem? res 2)
    else done (some (record { msg_type = ""; room_id = "" }))

unfoldable pub parse_url_to_cmd : String → Run (Option ParsedCmd)
unfolding parsed
parse_url_to_cmd val = parsed (split slash val) (get_elem? (split slash val) 1)

-- processCMD: what is put on registerCH, none for nothing.
unfoldable pub process_cmd : String → ParsedCmd → Option RegisterPayload
process_cmd id cmd =
    if same cmd.msg_type msg_type_join_room
    then some (record { client = id; cmd = register_room_cmd; room_id = cmd.room_id })
    else if same cmd.msg_type msg_type_leave_room
    then some (record { client = id; cmd = unregister_room_cmd; room_id = cmd.room_id })
    else if same cmd.msg_type msg_type_broadcast
    then none
    else some (record { client = id; cmd = register_broadcast_cmd; room_id = "" })

-- The path of a room, as a client writes it.
abbrev pub join_url : String → List String → String
join_url r more = print slash (msg_type_join_room ∷ r ∷ more)

join_room-Solid : Solid slash msg_type_join_room
join_room-Solid = (refl, (refl, (refl, (refl, (refl, (refl, (refl, (refl, (refl, tt)))))))))

parse_room_cmd :
    (r : String) (more : List String)
    → r ≢ ""
    → parsed ("" ∷ msg_type_join_room ∷ r ∷ more) (some msg_type_join_room)
      ≡ done (some (record { msg_type = msg_type_join_room; room_id = r }))
unfolding parsed room_cmd
parse_room_cmd r more n =
    let filled : same r "" ≡ false = ground (arith, n, same_iff r "") in rw filled refl

-- The path of a join of a room whose name is neither empty nor has a slash, whatever comes after the
-- name, is parsed to the join of that room, and a new connection with it registers for the room.
pub parse-join_url :
    (id r : String) (more : List String)
    → AllSolid slash (r ∷ more)
    → r ≢ ""
    → (cmd : ParsedCmd) × (parse_url_to_cmd (join_url r more) ≡ done (some cmd))
      × (process_cmd id cmd ≡ some (record { client = id; cmd = register_room_cmd; room_id = r }))
unfolding parse_url_to_cmd process_cmd print
parse-join_url id r more h n = (
  record { msg_type = msg_type_join_room; room_id = r },
  ap (λ ps. parsed ps (get_elem? ps 1))
        (split-print slash "" (msg_type_join_room ∷ r ∷ more) (tt, (join_room-Solid, h)))
      ∙ parse_room_cmd r more n,
  refl,
)

room_cmd-msg_type :
    (msg_type : String) (r : Option String) (cmd : ParsedCmd)
    → room_cmd msg_type r ≡ done (some cmd)
    → cmd.msg_type ≡ msg_type
unfolding room_cmd
room_cmd-msg_type msg_type none cmd h = absurd (ground arith)
room_cmd-msg_type msg_type (some r) cmd h = ground arith

-- Of what is parsed: neither a broadcast nor a direct message.
Quiet : Run (Option ParsedCmd) → Type 0
Quiet x =
    (cmd : ParsedCmd)
    → x ≡ done (some cmd)
    → (cmd.msg_type ≢ msg_type_broadcast) × (cmd.msg_type ≢ msg_type_direct)

if-Quiet :
    (b : Bool) (x y : Run (Option ParsedCmd))
    → Quiet x
    → (b ≡ false → Quiet y)
    → Quiet (if b then x else y)
if-Quiet true x y h k = h
if-Quiet false x y h k = k refl

none-Quiet : Quiet (done none)
unfolding Quiet
none-Quiet cmd h = absurd (ground arith)

parsed-Quiet : (res : List String) (o : Option String) → Quiet (parsed res o)
unfolding parsed Quiet
parsed-Quiet res none = none-Quiet
parsed-Quiet res (some m) = if-Quiet (same m msg_type_broadcast) _ _ none-Quiet (λ b.
    if-Quiet (same m msg_type_direct) _ _ none-Quiet (λ d.
      let other : (cmd : ParsedCmd)
          → cmd.msg_type ≡ m
          → (cmd.msg_type ≢ msg_type_broadcast) × (cmd.msg_type ≢ msg_type_direct) =
        λ cmd e.
          ground (arith, e, b, d, same_iff m msg_type_broadcast, same_iff m msg_type_direct) in
      let room : Quiet (room_cmd m (get_elem? res 2)) =
        λ cmd h. other cmd (room_cmd-msg_type m (get_elem? res 2) cmd h) in
      if-Quiet (same m msg_type_room_message) _ _ (λ cmd h. other cmd (ground arith))
        (λ _. if-Quiet (same m msg_type_join_room) _ _ room (λ _.
          if-Quiet (same m msg_type_leave_room) _ _ room (λ _. λ cmd h.
            ground (arith, same_iff "" msg_type_broadcast, same_iff "" msg_type_direct))))))

-- No path is parsed to the command of a broadcast or of a direct message.
pub parse_url_to_cmd_never_broadcasts :
    (val : String) (cmd : ParsedCmd)
    → parse_url_to_cmd val ≡ done (some cmd)
    → (cmd.msg_type ≢ msg_type_broadcast) × (cmd.msg_type ≢ msg_type_direct)
unfolding parse_url_to_cmd Quiet
parse_url_to_cmd_never_broadcasts val =
    parsed-Quiet (split slash val) (get_elem? (split slash val) 1)
