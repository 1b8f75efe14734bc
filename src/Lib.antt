-- ===== src/Lib.antt =====
-- The parts of Tresqu that move money and that meter its use. In the `wallbit` app an agent proposes
-- operations at the Wallbit broker, the user confirms them, and the app sends them, records them and
-- settles the ones whose outcome it does not know. The `users` app gives users a plan, counts the
-- expenses and incomes of a billing period against the plan's limits, and keeps organizations with
-- their members and invitations.
--
-- Common.antt: lists, dicts, numbers, dates, JSON and text.
-- Wallbit/Messages.antt, Wallbit/Client.antt: wallbit/client.py, the HTTP client: `_request` with
--   its attempts, backoffs and error classes. The network is a parameter, what the broker answers to
--   a request after all that was sent and slept before it.
-- Wallbit/Models.antt: wallbit/models.py, the rows, and the state (`World`) that the handlers read
--   and write: accounts, limits, decisions, mirrored transactions, investments, the queue of Celery
--   tasks, the notices to the user and the log of the client.
-- Wallbit/Limits.antt, Wallbit/Decisions.antt: wallbit/agent_safety.py, the checks of an operation
--   against the user's limits, and the life of a decision row.
-- Wallbit/Bodies.antt, Wallbit/Executors.antt: wallbit/executors.py, the requests of the executors
--   and `execute_decision`. An investment for a transaction that another one has raises, as the
--   database's constraint does.
-- Wallbit/Confirm.antt, Wallbit/Confirm/Buttons.antt: wallbit/confirmation_actions.py, confirmation,
--   cancellation, and the buttons of the chat that ask for them.
-- Wallbit/Payload.antt, Wallbit/Sync.antt, Wallbit/Reconcile.antt: wallbit/tasks.py, the reading of
--   a transaction list, `run_wallbit_sync` with `_backfill_investment`, and
--   `reconcile_uncertain_decision`.
-- Wallbit/Proposals.antt, Wallbit/Trades.antt: wallbit/write_tools.py, the previews by which the
--   agent proposes an operation, the pause, and the risk gate of wallbit/agent_safety.py.
-- Wallbit/Snapshot.antt, Wallbit/Snapshot/Fetch.antt, Wallbit/Snapshot/Live.antt: wallbit/portfolio.py,
--   the live snapshot of an account: what is read from the broker, and `get_live_snapshot` with its
--   cache, its lock and its cooldown.
-- Wallbit/Portfolio.antt, Wallbit/Portfolio/Totals.antt, Wallbit/Portfolio/Timeline.antt:
--   wallbit/portfolio.py, the cost basis of a position, `get_holdings`, `get_summary` and
--   `get_timeline`.
-- Wallbit/Views.antt, Wallbit/Views/Decisions.antt: wallbit/views.py, the endpoints that connect,
--   disconnect, pause, resume, confirm, cancel and synchronise.
-- Wallbit/System.antt: the entry points above as one sequence of operations.
-- Agents/Profile.antt: agents/effective_profile.py, `_combine`, which gives the profile that the risk
--   gate reads.
-- Agents/DateGuard.antt, Agents/DuplicateGuard.antt: agents/date_guard.py and
--   agents/duplicate_guard.py, what the tools of the agent do to the date of a new record and to
--   movements that it records twice in one turn.
-- Agents/CurrencyGuard.antt: agents/currency_guard.py, the currency that no text names. The tables of
--   Unicode, which tell marks, letters and digits, are a parameter.
-- Savings.antt: savings/models.py, deposits and withdrawals of a savings goal, and their endpoints in
--   savings/views.py.
-- Balance.antt, Balance/Compute.antt: expenses/balance.py, the balance of each currency, and
--   `_filter_by_period` of telegrambot/tools.py. A date is its ordinal number.
-- Users/Models.antt: users/models.py, the rows and the database (`Db`) that the operations pass on.
-- Users/Plans.antt: users/plan_limits.py, the plan operations of `User`, and the command
--   users/management/commands/check_expired_trials.py.
-- Users/Periods.antt: the billing periods of `MonthlyUsage`. An exception is `none`.
-- Users/Usage.antt: the usage rows of `MonthlyUsage`, the signals of users/signals.py that count
--   records, and the check before a creation (expenses/serializers.py). The methods for expenses and
--   for incomes are one definition that takes the kind of record.
-- Users/Organizations.antt: `Organization` and `OrganizationInvitation`. A method of an instance takes
--   the instance's row and key.
--
-- Handlers pass the state explicitly. A handler that holds a model instance holds a copy of its
-- row; `save(update_fields=...)` writes the named fields of the copy to the row with its id. A
-- handler under `transaction.atomic` with `select_for_update` is one step. In the `wallbit` app money
-- is in units of 10 ^ -8 USD and may be negative, and times are in seconds, those of the HTTP client
-- in milliseconds; savings are in cents. The retry loop runs on the number of attempts that are left,
-- so it needs no other fuel; the wait for a snapshot has a round for each poll of 0.25 s in
-- its 20 s and one more, which is shown to be enough; a number n is written with n + 1 rounds, one for each digit at least.
-- The clock stands still while one handler runs.
--
-- Parameters, since their code is elsewhere: the broker, decryption of the API keys, Python's `repr`
-- and `format` of values, encryption and the ids of new rows, the time zones of pytz, what other workers
-- do while one sleeps, `relativedelta` of python-dateutil, `Decimal` and `datetime.fromisoformat`
-- of a text. The regular expressions that read a user's texts are parameters too. The risk gate takes
-- the snapshot of the user's effective profile as an argument. Not modelled: logging, embeddings, the
-- texts of chat messages, the random part of a backoff, and failures of the database, of its
-- other constraints or of the task queue.
pub mod Common
pub mod Wallbit
pub mod Agents
pub mod Users
pub mod Savings
pub mod Balance
