-- ===== src/Tests/Server.antt =====
-- Runs of the server's functions on the sample session.
use csc469_advanced_operatin.Base.{ℕ, ◌≡◌, refl, true, some, [], ◌∷◌, ◌==◌, arith}
use csc469_advanced_operatin.Dll.{Dll, update, unlink, append}
use csc469_advanced_operatin.Dll.Unlink.{erase, Unlinked, unlink-erase}
use csc469_advanced_operatin.Dll.Append.{Appended, append-snoc}
use csc469_advanced_operatin.Server.Find.{find_member_with_id-first}
use csc469_advanced_operatin.Server.Members.{find_member_with_id}
use csc469_advanced_operatin.Server.Walk.{first}
use csc469_advanced_operatin.Server.Answer.{Answered}
use csc469_advanced_operatin.Server.Create.{Created, create_room-Created, create_room-fault}
use csc469_advanced_operatin.Server.Create.Run.{create_result}
use csc469_advanced_operatin.Server.Rooms.{create_room}
use csc469_advanced_operatin.Base.{if◌then◌else◌}
use csc469_advanced_operatin.Server.Chat.{process_chat_msg}
use csc469_advanced_operatin.Server.Chat.Delivery.{after_chat, process_chat_msg-delivered}
use csc469_advanced_operatin.Server.Sound.{IsSound}
use csc469_advanced_operatin.Server.Requests.{process_create_room_request}
use csc469_advanced_operatin.Server.CreateRequest.{
  create_answer, process_create_room_request-Answered,
}
use csc469_advanced_operatin.Server.Create.Link.{with_room}
use csc469_advanced_operatin.Server.State.{fault, c_room_name}
use csc469_advanced_operatin.Tests.Sample.{lost_tail, lost_tail-IsSound}
use csc469_advanced_operatin.Server.State.{Server, Run, ok, ◌>>◌}
use csc469_advanced_operatin.Server.Members.{leave_room, leave_session, remove_member, free_member}
use csc469_advanced_operatin.Server.Rooms.{remove_room, remove_room_loop, free_room}
use csc469_advanced_operatin.Server.Rooms.Remove.{RoomGone, remove_room-RoomGone}
use csc469_advanced_operatin.Server.Remove.{Gone, remove_member-Gone}
use csc469_advanced_operatin.Server.Sweep.{
  sweep, sweep_member, sweep_members, sweep_room, sweep_rooms,
}
use csc469_advanced_operatin.Server.Sweep.Whole.{AfterSweep, sweep-AfterSweep}
use csc469_advanced_operatin.Tests.Sample.{sample, session, sample-IsSound}

-- The tail and the members after a run.
abbrev after : Run (Unit {0}) → ℕ × ℕ × ℕ × ℕ
after (ok a s) = (s.mem_list.head, s.total_num_of_members, s.room_list_head, s.room_list_tail)
after r = (0, 0, 0, 0)

-- Member 1 was silent, and the room 20 stood empty.
sweep_runs : after (sweep sample) ≡ (2, 1, 10, 0)
unfolding sweep sweep_members sweep_rooms sweep_member sweep_room remove_member leave_room
    leave_session free_member remove_room remove_room_loop free_room unlink update
sweep_runs = refl

sweep-AfterSweep_example : (t : Server) × (sweep sample ≡ ok tt t) × AfterSweep sample t session
sweep-AfterSweep_example = sweep-AfterSweep sample session sample-IsSound

remove_member-Gone_example :
    (t : Server) × ((remove_member 1 >> free_member 1) sample ≡ ok tt t) × Gone 1 sample t session
remove_member-Gone_example = remove_member-Gone sample session 1 sample-IsSound refl

remove_room-RoomGone_example :
    (t : Server) × ((remove_room 20 >> free_room 20) sample ≡ ok tt t)
    × RoomGone 20 sample t (10 ∷ 20 ∷ [])
remove_room-RoomGone_example =
    remove_room-RoomGone sample 20 (10 ∷ 20 ∷ []) sample-IsSound.rooms refl

-- The member list of the sample, without its first and with one more.
unlink-erase_example :
    (k : Dll) × (unlink sample.live_member sample.mem_list 1 ≡ some k)
    × Unlinked (1 ∷ 2 ∷ []) (erase 1 (1 ∷ 2 ∷ [])) sample.mem_list k
unlink-erase_example =
    unlink-erase sample.live_member sample.mem_list 1 (1 ∷ 2 ∷ []) sample-IsSound.members.shape
      sample-IsSound.members.live refl

append-snoc_example :
    (k : Dll) × (append (λ _. true) sample.mem_list 3 ≡ some k)
    × Appended (1 ∷ 2 ∷ []) 3 sample.mem_list k
append-snoc_example =
    append-snoc (λ _. true) sample.mem_list 3 (1 ∷ 2 ∷ []) sample-IsSound.members.shape
      (refl, (refl, tt)) refl (λ e. omega arith) refl (refl, refl)

find_member_with_id-first_example :
    find_member_with_id 22 sample ≡ ok (first (λ m. sample.member_id m == 22) (1 ∷ 2 ∷ [])) sample
find_member_with_id-first_example =
    find_member_with_id-first sample 22 (1 ∷ 2 ∷ []) sample-IsSound.members

create_room-Created_example :
    (t : Server) × (create_room 30 (b't' ∷ []) sample
      ≡ ok (create_result sample session (b't' ∷ [])) t)
    × Created 30 (b't' ∷ []) (create_result sample session (b't' ∷ [])) sample t session
create_room-Created_example =
    create_room-Created sample session 30 (b't' ∷ []) sample-IsSound refl (λ e. omega arith) refl

-- The sample after the tail was lost.
create_room-fault_example : create_room 30 (b't' ∷ []) lost_tail ≡ fault
unfolding c_room_name first
create_room-fault_example =
    create_room-fault lost_tail session 30 (b't' ∷ []) lost_tail-IsSound refl (λ e. omega arith)
      refl (λ e. absurd (not-nil e)) refl
  where
    not-nil : session.rooms ≡ [] → ⊥
    not-nil e = ground arith

-- Member 1 says something in the room 10.
process_chat_msg-delivered_example :
    (process_chat_msg (λ _ _ n. some n) (some (0 ∷ 11 ∷ [])) sample
      ≡ ok tt (after_chat sample session (0 ∷ 11 ∷ [])))
    × IsSound (after_chat sample session (0 ∷ 11 ∷ [])) session
process_chat_msg-delivered_example =
    process_chat_msg-delivered (λ _ _ n. some n) sample session (0 ∷ 11 ∷ []) (λ _ _ n. refl)
      sample-IsSound

process_create_room_request-Answered_example :
    (t : Server) × (process_create_room_request 30 5 1 (b't' ∷ []) sample ≡ ok tt t)
    × Answered 5 1
        (create_answer (create_result sample session (b't' ∷ []))).type
        (create_answer (create_result sample session (b't' ∷ []))).text
        sample
        t
        (if create_result sample session (b't' ∷ []) == 0 then with_room 30 session else session)
process_create_room_request-Answered_example =
    process_create_room_request-Answered sample session 30 5 1 (b't' ∷ []) sample-IsSound refl
      (λ e. omega arith) refl
