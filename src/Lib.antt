-- ===== src/Lib.antt =====
-- HOST, a marketplace for short stays: a model of the core in lib/ and its theorems.
--
-- A guest books nights of a property (lib/booking), a host blocks and frees nights (lib/hosts), and
-- calendars of other sites are imported (lib/calendar). All three write the one availability table and
-- take the same lock on the property, so the transactions on a property follow one another; here each
-- is a function from the tables to the tables (`Db`), and an error leaves the old ones. Prices, refunds
-- and the ledger's reversals (lib/booking, lib/payments) are computed in whole minor units.
--
-- Files:
--   Store                  the rows of the tables that the queries use (migrations/)
--   Booking/Types          lib/booking/types.ts
--   Booking/Price          lib/booking/priceEngine.ts: calculatePrice is `calculate_price`
--   Booking/Cancellation   lib/booking/cancellationEngine.ts
--   Booking/Create         lib/booking/createBooking.ts: createBooking is `create_booking`
--   Booking/Release        releaseExpiredHold of createBooking.ts, lib/booking/cancelBooking.ts and
--                          lib/booking/discardUnpaidBooking.ts
--   Booking/Exclusive      who holds a night, and what the operations keep; Steps has them as steps,
--                          all that write nights or bookings but onRefundEvent
--   Booking/Groups         lib/booking/tripGrouping.ts and lib/booking/hostBookingGrouping.ts
--   Calendar               lib/calendar/calendarSync.ts: feeds, imported nights, a synchronisation
--   Calendar/Ical          lib/calendar/ical.ts: parseICalendar is `parse_icalendar`; the lines of a file
--                          (unfoldLines, and foldLine of the export) are in Calendar/Lines, its dates
--                          in Calendar/Dates
--   Calendar/Export        lib/calendar/calendarExport.ts
--   Calendar/Fetch         lib/calendar/safeCalendarFetch.ts; its address tests are in
--                          Calendar/Addresses
--   Hosts/Images           lib/hosts/propertyImages.ts; Changes has its calls as steps
--   Hosts/Readiness        lib/hosts/listingReadiness.ts
--   Hosts/Availability     lib/hosts/hostAvailability.ts
--   Payments/Reversal      lib/payments/refundReversal.ts, and a sequence of refunds by it
--   Payments/Refunds       onRefundEvent of lib/payments/webhookHandler.ts
--   Payments/Initiation    lib/payments/refund.ts; Calls has its calls, each as far as it gets
--   Payments/Timing        decideChargeTiming of lib/payments/scheduledCharges.ts
--   Payments/Charges       attemptScheduledCharge of the same file: `begin_charge`, then (in Record)
--                          `record_answer` with Stripe's answer; Record has recordChargeOutcome and
--                          onNewFlowPaymentSucceeded (lib/payments/newFlowWebhookHandling.ts) too, and
--                          Steps their sequences. The immediate charge is not among the steps.
--   Payments/GuestStatus   what the guest is shown, of the same file
--   Payouts/Transfers      lib/payouts/hostTransfers.ts: attemptRelease is `check_release`, Stripe's answer
--                          and `finish_release`; Steps has the interleavings of workers
--   Tests                  concrete runs
--   Base                   lists, integers, rounding, results and text that the files share
--
-- Dates are day numbers and timestamps milliseconds, both counted from 0000-01-01; identifiers are
-- numbers. The clock and
-- new identifiers are in `Env`. Amounts are unbounded integers: those of the program are whole numbers
-- far below 2^53, where the engine's doubles are exact. A rate is a double, and `Math.round` of an
-- amount times a rate is an argument of the model (`JsMath`), as is the conversion of a NUMERIC column
-- to minor units. What the network and the parser give a synchronisation is an argument too. The
-- recursion is on lists and dates; the folding of a line and the search for the year of a day count
-- rounds by the length of the line and by the day, of which every round takes at least one.
--
-- The database's driver is taken to give dates in UTC. The table of nights has no last row, so the
-- export takes a day before which all rows stand.
--
-- Not modelled: the immediate charge at booking, webhooks beyond the parts above, the legacy payouts,
-- authentication, messages, pages and routes; the decoding of a fetched calendar's bytes. Two runs of
-- transactions that interleave are not either: the lock on a property, or on a booking for charges,
-- excludes them. The report of a payment takes the lock of the booking's row alone; it reads only that
-- row, and its writes are seen together.
pub mod Base
pub mod Store
pub mod Calendar
pub mod Hosts
pub mod Booking
pub mod Payments
pub mod Payouts
pub mod Tests
