-- ===== src/Lib.antt =====
-- hotello-backend is the NestJS server of a hotel platform: staff of a hotel check guests in and out,
-- keep the rooms clean and serve orders; a guest signs in with the code of the stay. This library
-- models the services that change those rows, and proves what keeps them consistent.
--
-- The parts and their files:
--
-- - Clock (src/modules/tenant-stays/stay-time.ts) and Calendar (the dates that the services compute with
--   the JavaScript `Date`): the hotel's local clock. `Intl.DateTimeFormat` is a parameter, `Clock.Intl`.
-- - Model: the rows of the entity files, with the columns that the modelled services read or write.
-- - Housekeeping (src/modules/housekeeping). Transitions is the transition matrix
--   (housekeeping-transitions.ts); Rooms and Actions are the staff actions, Hooks the bulk assignment,
--   the settings, the hook on a vacated room and the guest's toggle (housekeeping.service.ts); Daily is
--   the daily job (housekeeping-scheduler.service.ts); Controller names the staff routes.
-- - Stays (src/modules/tenant-stays). CheckIn, Edits and Moves are the operations of
--   tenant-stays.service.ts, Codes is stay-code.service.ts, AutoCheckout is auto-checkout.service.ts.
--   Check-out, automatic check-out and a room change call the hook of Housekeeping.
-- - Fnb (src/modules/fnb). Availability and Pricing are fnb-availability.ts and fnb-pricing.ts, Orders the
--   actions of tenant-fnb-orders.service.ts and the guest's cancellation of guest-fnb.service.ts.
-- - Settlement (src/modules/stay-settlement): the combined settlement of a stay, over the two sources
--   Orders (src/modules/fnb/fnb-settlement-source.ts) and Bookings
--   (src/modules/events/event-settlement-source.ts).
-- - Requests (src/modules/requests): the life of a guest request.
-- - Push (src/modules/push/push-quiet-hours.ts): the quiet hours.
-- - Events (src/modules/events). Guests are the guest's calls (guest-events.service.ts), Manage the calls
--   of the staff (tenant-events.service.ts), Scheduler the completion tick (event-scheduler.service.ts)
--   and Time the stamps (event-time.ts). The announcement that a call of the staff makes is recorded as
--   an `EventNotice`; its texts and the photos are not modelled.
-- - Subscriptions (src/modules/subscriptions). Service are the calls of an admin
--   (subscriptions.service.ts), Trials the daily job (trial-expiry.service.ts), Cycle is `addCycle`, and
--   Access is `loadState` of src/modules/tenant-access. The zone of the host is the parameter
--   `Cycle.HostZone`. A loaded state is what the guest services read as `World.access`.
-- - Lanes (src/common/lanes.ts): the two lanes of a staff list.
-- - Announcements (src/modules/announcements/announcement-visibility.ts): the audience filter and what
--   a stay sees.
--
-- How code becomes definitions. The tables, the clock, the random draws and what a service leaves
-- behind (audit entries, analytics rows, push calls, e-mail events) are the record `Exec.World`. A
-- method is an action on it (`Exec`): it returns a value or throws the code of an HTTP exception, and
-- leaves a state in both cases. A `Promise.all` of queries is their sequence. TypeORM with PostgreSQL is
-- the parameter `Store.TypeOrm`, a table of rows under a primary key with the documented behaviour of
-- `findOne`, `find`, `save` and of a generated key as its laws; `Witnesses.Database` is a table that has
-- them. A call is one step, and the steps of different callers are interleaved in any order by the
-- `Reach` relations. Of the calls on stays, checkIn and changeRoom take the hotel's row lock (`lockHotel`);
-- update, regenerateCode, checkout and closeOverdueStays take no lock, so for them one step is an
-- assumption. Two partial unique indexes, on the active stay of a room and on the code of an active stay,
-- back the uniqueness where calls overlap; the race that they catch (`mapRoomOccupiedRace`) is not modelled.
-- `changePlan` of the subscriptions holds no lock, and neither do the staff actions on orders and
-- requests: for them the step is an assumption, and two calls that overlap are not modelled.
--
-- The proofs. `Exec.Keeps` has one rule for each way to build an action, for invariants; `Exec.Safe` is
-- for what holds before and after, `Exec.Total` for actions that do not throw. A component states once
-- which changes its operations make to a row (Stays.Changes, Fnb.Changes) or what a room
-- invariant needs (Housekeeping.Staff); every operation is proved to keep what those keep, and each
-- invariant is proved per change. `Exec.Frame` states such proofs on a view of the state, the tables
-- that a component changes (Events.Changes, Subscriptions.Changes). `Store.Sums` is about sums over the
-- rows of a query, `Store.Listed` about a loop that saves the rows that a query returned.
--
-- Numbers: an id or a hash is only compared and is a natural number; an instant is in milliseconds; a
-- text that the code walks is the list of its UTF-16 code units; an amount is exact, in hundredths of a
-- cent, where the source rounds binary floating point to cents. Every loop of the modelled code is
-- over a list or has its own bound (the 20 attempts of `issueUniqueCode`), so no fuel is added.
--
-- Not modelled: HTTP, validation decorators, database migrations, mail, storage, image renditions,
-- push delivery, reports, and the administration of hotels, users, roles and plans. The boards and other
-- read-only queries, and the creation of orders and requests, are left for later.
pub mod Common
pub mod Events
pub mod Store
pub mod Model
pub mod Shared
pub mod Clock
pub mod Announcements
pub mod Calendar
pub mod Exec
pub mod Housekeeping
pub mod Stays
pub mod Fnb
pub mod Lanes
pub mod Settlement
pub mod Push
pub mod Requests
pub mod Subscriptions
pub mod Witnesses
