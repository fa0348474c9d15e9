-- ===== src/Tests/Groups.antt =====
-- Concrete lists of a guest's trips and of a host's bookings.
use hostrepository.Base.{ℕ, ◌+◌, ◌*◌, ◌≡◌, false, List, [], ◌∷◌, inl, inr, In, length, arith, ◌≤◌}
use hostrepository.Store.{Booking}
use hostrepository.Booking.Types.{BookingStatus, confirmed, cancelled, draft}
use hostrepository.Booking.Create.{new_row}
use hostrepository.Booking.Groups.{group_trips, group_host_bookings}
use hostrepository.Booking.Groups.Partition.{group_trips_partition, group_host_bookings_partition}
use hostrepository.Tests.Data.{js, env, stay, cottage}

-- Days 20010 to 20013.
abbrev with_status : BookingStatus → Booking
with_status s = record (new_row js env false stay cottage []) { status = s }

abbrev bookings : List Booking
bookings = with_status confirmed ∷ with_status cancelled ∷ with_status draft ∷ []

-- During the stay.
abbrev now : ℕ
now = 20011 * 86400000

group_trips_partition_example :
    let g = group_trips bookings now in
    (g.upcoming ≡ [])
    × (g.past ≡ with_status confirmed ∷ [])
    × (g.called_off ≡ with_status cancelled ∷ [])
    × (length g.upcoming + length g.past + length g.called_off + 1 ≡ 3)
unfolding new_row
group_trips_partition_example = group_trips_partition bookings now

bookings_ordered : (b : Booking) → In b bookings → b.check_in ≤ b.check_out
unfolding new_row
bookings_ordered b (inl e) = rw e (omega arith)
bookings_ordered b (inr (inl e)) = rw e (omega arith)
bookings_ordered b (inr (inr (inl e))) = rw e (omega arith)
bookings_ordered b (inr (inr (inr i))) = absurd i

group_host_bookings_partition_example :
    let g = group_host_bookings bookings now in
    (g.upcoming ≡ [])
    × (g.current ≡ with_status confirmed ∷ [])
    × (g.past ≡ [])
    × (g.called_off ≡ with_status cancelled ∷ [])
    × (length g.upcoming + length g.current + length g.past + length g.called_off + 1 ≡ 3)
unfolding new_row
group_host_bookings_partition_example = group_host_bookings_partition bookings now bookings_ordered
