-- ===== src/Booking/Exclusive/Creating.antt =====
-- Creating a booking: the nights that it takes were free, and the bookings stay exclusive.
use text.Mathlib.Text.{◌==◌ as str_eq}
use text.Mathlib.TextPositions.{eq_refl}
use hostrepository.Base.{
  ℕ, ◌≡◌, refl, sym, ap, ◌∙◌, Bool, true, false, ◌&&◌, ◌==◌, Option, none, some, List, [], ◌∷◌,
  within, In, arith, Option-cases, inl, inr, if◌then◌else◌, find?, ◌⊎◌,
}
use hostrepository.Base.Int.{pos, leb_ℤ}
use hostrepository.Base.Result.{
  ok, first_eq, second_eq, >>=-eq-ok, or_throw, require, require-eq-ok,
}
use hostrepository.Store.{Db, Env, Blocks, Booking, Property, PriceRow}
use hostrepository.Booking.Types.{JsMath, invalid_date_range, invalid_guests, property_not_found}
use hostrepository.Booking.Price.{nights_between, calculate_price}
use hostrepository.Booking.Create.{
  CreateBookingInput, Created, booked_block, book_dates, is_unavailable, none_unavailable,
  get_active_fee_config, pricing_of, new_row, check_stay, insert_booking, create_new,
  create_booking,
}
use hostrepository.Booking.Exclusive.{Takes, IsCovered, IsExclusive, IsConsistent}
use hostrepository.Calendar.Availability.{enumerate_dates, set_block}
use hostrepository.Calendar.Availability.Ranges.{listed, listed-enumerate_dates}

book_dates_lem :
    (p : ℕ) (ds : List ℕ) (b : Blocks) (q e : ℕ)
    → book_dates p ds b q e ≡ (if q == p && listed e ds then some booked_block else b q e)
unfolding book_dates
book_dates_lem p [] b q e = ground arith
book_dates_lem p (d ∷ ds) b q e =
    rw (book_dates_lem p ds (set_block b p d (some booked_block)) q e) (ground arith)

find?-none :
    (test : ℕ → Bool) (e : ℕ) (ds : List ℕ)
    → find? test ds ≡ none
    → listed e ds ≡ true
    → test e ≡ false
find?-none test e [] h k = cc
find?-none test e (d ∷ ds) h k = ground (arith, find?-none test e ds)

none_unavailable-ok : (o : Option ℕ) {u : Unit {0}} → none_unavailable o ≡ ok u → o ≡ none
none_unavailable-ok none h = refl
none_unavailable-ok (some d) h = cc

module _ (js : JsMath) (env : Env) (delayed_flow : Bool) (input : CreateBookingInput)
    (db : Db) where
  abbrev range_test : ℕ → Bool
  range_test d = is_unavailable (db.blocks input.property_id d)

  -- The database after the rows of a new booking are in.
  abbrev booked_db : Property → List PriceRow → Db
  booked_db p prices = record db {
    blocks =
        book_dates input.property_id (enumerate_dates input.check_in input.check_out) db.blocks;
    bookings = new_row js env delayed_flow input p db.policies ∷ db.bookings;
    prices = prices;
  }

  insert_booking-ok :
      (p : Property) (r : Created) (db' : Db)
      → insert_booking js env delayed_flow input p db ≡ ok (r, db')
      → (prices : List PriceRow) × (find? range_test
            (enumerate_dates input.check_in input.check_out)
          ≡ none)
        × (db' ≡ booked_db p prices)
        × (r.row ≡ new_row js env delayed_flow input p db.policies)
  unfolding insert_booking
  insert_booking-ok p r db' e =
      let (_, free, e₁) =
        >>=-eq-ok
          (none_unavailable (find? range_test (enumerate_dates input.check_in input.check_out))) _
          e in
      let (fee, _, e₂) = >>=-eq-ok (get_active_fee_config db.fee_configs) _ e₁ in
      let (breakdown, _, e₃) =
        >>=-eq-ok
          (calculate_price js (pricing_of js p) (nights_between input.check_in input.check_out) fee)
          _ e₂ in
      (_, none_unavailable-ok _ free, second_eq e₃, ap (λ (x : Created). x.row) (first_eq e₃))

  night_free :
      (e : ℕ)
      → find? range_test (enumerate_dates input.check_in input.check_out) ≡ none
      → within input.check_in input.check_out e ≡ true
      → is_unavailable (db.blocks input.property_id e) ≡ false
  night_free e free inside =
      find?-none range_test e (enumerate_dates input.check_in input.check_out) free
        (listed-enumerate_dates e input.check_in input.check_out ∙ inside)

  booked_db_blocks :
      (p : Property) (prices : List PriceRow) (q e : ℕ)
      → (booked_db p prices).blocks q e ≡ (
          if q == input.property_id && within input.check_in input.check_out e
          then some booked_block
          else db.blocks q e)
  booked_db_blocks p prices q e = rw (
    book_dates_lem input.property_id (enumerate_dates input.check_in input.check_out) db.blocks q e,
    listed-enumerate_dates e input.check_in input.check_out,
  )

  booked_db-IsConsistent :
      (p : Property) (prices : List PriceRow)
      → find? range_test (enumerate_dates input.check_in input.check_out) ≡ none
      → IsConsistent db
      → IsConsistent (booked_db p prices)
  unfolding new_row
  booked_db-IsConsistent p prices free (old_covered, old_exclusive) = (covered, exclusive)
    where
      row : Booking
      row = new_row js env delayed_flow input p db.policies

      covered : IsCovered (booked_db p prices)
      covered b d (inl e) takes =
          let (_, inside) = rw e at takes in
          rw (booked_db_blocks p prices b.property_id d, e) (ground arith)
      covered b d (inr i) takes =
          rw (booked_db_blocks p prices b.property_id d, old_covered b d i takes) (ground arith)

      -- The new booking's nights were free, and another's are not.
      apart :
          (c : Booking) (d : ℕ)
          → In c db.bookings
          → c.property_id ≡ input.property_id
          → Takes row d
          → ¬ Takes c d
      apart c d i same new old =
          let booked : db.blocks input.property_id d ≡ some booked_block =
            rw same at (old_covered c d i old) in
          let open_night = night_free d free new.1 in cc (rw booked at open_night)

      exclusive : IsExclusive (booked_db p prices)
      exclusive b c d (inl e) (inl f) ne same tb tc =
          absurd (ne (ap (λ (x : Booking). x.id) (e ∙ sym f)))
      exclusive b c d (inl e) (inr j) ne same tb tc =
          apart c d j (sym (rw e at same)) (rw e at tb) tc
      exclusive b c d (inr i) (inl f) ne same tb tc = apart b d i (rw f at same) (rw f at tc) tb
      exclusive b c d (inr i) (inr j) ne same tb tc = old_exclusive b c d i j ne same tb tc

  create_new-ok :
      (r : Created) (db' : Db)
      → create_new js env delayed_flow input db ≡ ok (r, db')
      → (p : Property) × (insert_booking js env delayed_flow input p db ≡ ok (r, db'))
  unfolding create_new
  create_new-ok r db' e =
      let test = λ (p : Property). p.id == input.property_id in
      let (p, _, e₁) = >>=-eq-ok (or_throw (find? test db.properties) property_not_found) _ e in
      let (_, _, e₂) =
        >>=-eq-ok (check_stay js env delayed_flow input p db.compliance_items) _ e₁ in
      (p, e₂)

  abbrev same_key : Booking → Bool
  same_key b = str_eq b.idempotency_key input.idempotency_key

  -- A call that succeeds found the booking of its key and changed nothing, or made a new one.
  create_booking-ok :
      (r : Created) (db' : Db)
      → create_booking js env delayed_flow input db ≡ ok (r, db')
      → ((db' ≡ db) × (find? same_key db.bookings ≡ some r.row))
        ⊎ (create_new js env delayed_flow input db ≡ ok (r, db'))
  unfolding create_booking
  create_booking-ok r db' e =
      let nights = nights_between input.check_in input.check_out in
      let (_, _, e₁) = >>=-eq-ok (require (leb_ℤ (pos 1) nights) invalid_date_range) _ e in
      let (_, _, e₂) = >>=-eq-ok (require (leb_ℤ (pos 1) input.guests) invalid_guests) _ e₁ in
      elim (Option-cases (find? same_key db.bookings)) [
        | inl absent ↦ inr (rw absent at e₂)
        | inr (row, found) ↦
            let e₃ = rw found at e₂ in
            inl (second_eq e₃, found ∙ sym (ap (λ (x : Created). some x.row) (first_eq e₃)))
      ]

  -- Creating a booking keeps the bookings exclusive, whichever way it succeeds.
  pub create_booking-IsConsistent :
      (r : Created) (db' : Db)
      → IsConsistent db
      → create_booking js env delayed_flow input db ≡ ok (r, db')
      → IsConsistent db'
  create_booking-IsConsistent r db' c e = elim (create_booking-ok r db' e) [
    | inl (same, _) ↦ rw same c
    | inr made ↦
        let (p, inserted) = create_new-ok r db' made in
        let (prices, free, same, _) = insert_booking-ok p r db' inserted in
        rw same (booked_db-IsConsistent p prices free c)
  ]

  -- A booking that is new takes nights that were all free, books every one of them, and changes no
  -- other night of any property.
  pub create_booking_nights :
      (r : Created) (db' : Db) (q e : ℕ)
      → create_booking js env delayed_flow input db ≡ ok (r, db')
      → find? same_key db.bookings ≡ none
      → (db'.blocks q e ≡ (
          if q == input.property_id && within input.check_in input.check_out e
          then some booked_block
          else db.blocks q e))
        × (within input.check_in input.check_out e ≡ true
            → is_unavailable (db.blocks input.property_id e) ≡ false)
  create_booking_nights r db' q e done new = elim (create_booking-ok r db' done) [
    | inl (_, found) ↦ cc
    | inr made ↦
        let (p, inserted) = create_new-ok r db' made in
        let (prices, free, same, _) = insert_booking-ok p r db' inserted in
        (rw same (booked_db_blocks p prices q e), night_free e free)
  ]

  new_row_found :
      (p : Property)
      → find? same_key (new_row js env delayed_flow input p db.policies ∷ db.bookings)
        ≡ some (new_row js env delayed_flow input p db.policies)
  unfolding new_row
  new_row_found p = rw (eq_refl input.idempotency_key)

  create_new_found :
      (r : Created) (db' : Db)
      → create_new js env delayed_flow input db ≡ ok (r, db')
      → find? same_key db'.bookings ≡ some r.row
  create_new_found r db' made =
      let (p, inserted) = create_new-ok r db' made in
      let (prices, free, same, row) = insert_booking-ok p r db' inserted in
      rw (same, row) (new_row_found p)

  passed :
      (r : Created) (db' : Db)
      → create_booking js env delayed_flow input db ≡ ok (r, db')
      → (leb_ℤ (pos 1) (nights_between input.check_in input.check_out) ≡ true)
        × (leb_ℤ (pos 1) input.guests ≡ true)
  unfolding create_booking
  passed r db' e =
      let nights = nights_between input.check_in input.check_out in
      let (_, long, e₁) = >>=-eq-ok (require (leb_ℤ (pos 1) nights) invalid_date_range) _ e in
      let (_, some_guests, e₂) =
        >>=-eq-ok (require (leb_ℤ (pos 1) input.guests) invalid_guests) _ e₁ in
      (require-eq-ok _ _ long, require-eq-ok _ _ some_guests)

  -- The row of the key is there after every call that succeeds.
  create_booking_found :
      (r : Created) (db' : Db)
      → create_booking js env delayed_flow input db ≡ ok (r, db')
      → find? same_key db'.bookings ≡ some r.row
  create_booking_found r db' e = elim (create_booking-ok r db' e) [
    | inl (same, found) ↦ rw same found
    | inr made ↦ create_new_found r db' made
  ]

create_again :
    (js : JsMath) (env : Env) (delayed_flow : Bool) (input : CreateBookingInput) (db : Db)
    (row : Booking)
    → (leb_ℤ (pos 1) (nights_between input.check_in input.check_out) ≡ true)
      × (leb_ℤ (pos 1) input.guests ≡ true)
    → find? (λ (b : Booking). str_eq b.idempotency_key input.idempotency_key) db.bookings ≡ some row
    → create_booking js env delayed_flow input db ≡ ok (record { row = row; breakdown = none }, db)
unfolding create_booking
create_again js env delayed_flow input db row (long, some_guests) found =
    rw (long, some_guests, found)

-- A call that succeeded and is made again, whenever and under whatever flags, returns the same
-- booking and changes nothing.
pub create_booking_retry :
    (js : JsMath) (env later : Env) (flow flow' : Bool) (input : CreateBookingInput) (db : Db)
    (r : Created) (db' : Db)
    → create_booking js env flow input db ≡ ok (r, db')
    → create_booking js later flow' input db' ≡ ok (record { row = r.row; breakdown = none }, db')
create_booking_retry js env later flow flow' input db r db' e =
    create_again js later flow' input db' r.row (passed js env flow input db r db' e)
      (create_booking_found js env flow input db r db' e)
