-- ===== src/Tests/Hubs.antt =====
-- The theorems on the hub at a run: a client comes, gets a message and leaves.
use echo_backend.Base.{List, if◌then◌else◌, ◌==◌, ◌<◌, ◌≡◌, refl, [], ◌∷◌, ◌++◌, arith}
use echo_backend.Text.{Text, codes}
use echo_backend.Hub.{
  Hub, new_hub, add_client, deliver_each, deliver, send, remove, times, Steps, here, further,
  call_register, run_register, call_broadcast, run_broadcast, call_unregister, run_unregister,
  receive,
}
use echo_backend.Hub.Order.{Run, begin, on}
use echo_backend.Hub.Order.Unbroken.{Run-unbroken}
use echo_backend.Hub.Delivery.{IsReached, IsKept, deliver_each-clients}
use echo_backend.Hub.Panics.{IsSound, Steps-IsSound}

abbrev asked : Hub
asked = record new_hub { register = 1 ∷ []; known = 1 ∷ [] }

abbrev served : Hub
served = record asked { register = []; clients = add_client 1 [] }

abbrev posted : Hub
posted = record served { broadcast = codes "post" ∷ [] }

abbrev delivered : Hub
delivered = deliver_each (codes "post") (1 ∷ []) (record posted { broadcast = [] })

abbrev leaving : Hub
leaving = record delivered { unregister = delivered.unregister ++ 1 ∷ [] }

abbrev left : Hub
left = remove 1 (record leaving { unregister = [] })

before_delivery : Steps new_hub posted
unfolding add_client
before_delivery =
    further _ served _
      (further _ asked _ (further _ new_hub _ (here _) (call_register 1 new_hub refl (omega arith)))
        (run_register 1 [] asked refl refl))
      (call_broadcast (codes "post") served (omega arith))

visit : Steps new_hub left
unfolding add_client deliver_each deliver send
visit =
    further _ leaving _
      (further _ delivered _
        (further _ posted _ before_delivery
          (run_broadcast (codes "post") [] (1 ∷ []) posted refl refl (λ d. refl)))
        (call_unregister 1 delivered (omega arith)))
      (run_unregister 1 [] leaving refl refl)

Steps-IsSound_example : IsSound left
Steps-IsSound_example = Steps-IsSound left visit

deliver_each-clients_example :
    (0 < times 1 posted.clients
      → IsReached
          (codes "post")
          1
          posted
          (deliver_each (codes "post") (1 ∷ []) (record posted { broadcast = [] })))
    × (times 1 posted.clients ≡ 0
        → IsKept 1 posted (deliver_each (codes "post") (1 ∷ []) (record posted { broadcast = [] })))
unfolding add_client
deliver_each-clients_example =
    deliver_each-clients posted (codes "post") [] (1 ∷ []) 1 before_delivery (λ d. refl)

-- The client takes the one post that the hub has handled.
heard : Run 1 delivered (codes "post" ∷ []) [] []
unfolding add_client deliver_each deliver send
heard =
    on posted _ _ _ _
      (on served _ _ _ _
        (on asked _ _ _ _ (on new_hub _ _ _ _ begin (call_register 1 new_hub refl (omega arith)))
          (run_register 1 [] asked refl refl))
        (call_broadcast (codes "post") served (omega arith)))
      (run_broadcast (codes "post") [] (1 ∷ []) posted refl refl (λ d. refl))

abbrev emptied : Hub
emptied = record delivered { buffers = λ d. if d == 1 then [] else delivered.buffers d }

second_taken : Run 1 emptied (codes "post" ∷ []) [] (codes "post" ∷ [])
unfolding add_client deliver_each deliver send
second_taken = on delivered _ _ _ _ heard (receive 1 (codes "post") [] delivered refl)

Run-unbroken_example :
    (after : List Text) × (codes "post" ∷ []
      ≡ [] ++ ((codes "post" ∷ [] ++ emptied.buffers 1) ++ after))
    × (0 < times 1 emptied.clients → after ≡ [])
Run-unbroken_example =
    Run-unbroken 1 emptied (codes "post" ∷ []) [] (codes "post" ∷ []) second_taken
