-- ===== src/Lib.antt =====
-- GST-AI-COPILOT, the back end of an assistant for the Indian goods and services tax: its
-- deterministic rules, and the services that keep returns, reviews and members. The program keeps
-- these rules free of the language model, and this library models them as functions.
--
-- Base holds what the parts share. Amounts and rates are integers of ten-thousandths (Base.Int):
-- 1 rupee and 1 per cent are pos 10_000, a paisa is pos 100. This is exact for values of up to
-- four decimal places; the 28 digits of the decimal context, NaN and infinities are not modelled.
-- Texts are lists of code points (Base.Strings); upper and lower case are those of ASCII, and
-- digits, where the code asks str.isdigit, those of Unicode 14 (Base.Digits). Exceptions are
-- values of Result (Base.Errors), their messages constructors. A table is a list of rows in the
-- order of insertion (Base.Rows). Dictionaries are association lists in the order of insertion,
-- and sorting is stable insertion (Base.Sorting).
--
-- Gst models backend/app/rules/gst_calculator.py: calculate is GSTCalculator.calculate, tax_split
-- and warnings_for its branches, build its result; round is _round, on an exact fraction;
-- calculate_line_items is the method of that name.
--
-- Gstin models backend/app/rules/gstin_validator.py: match_gstin is the pattern, compute_checksum
-- the check digit, validate_gstin the function.
--
-- Accounting models backend/app/rules/accounting.py: Accounting.Voucher the balance check,
-- Accounting.Lines a ledger, and TrialBalance, ProfitLoss, BalanceSheet and Statement the
-- reports; Accounting.Equation relates them.
--
-- Reconciliation models backend/app/rules/gstr_reconciliation.py: group_by_key is the grouping
-- loop, match_books and reconcile_group the loop over the books, leftover_records the loop over
-- the rest, summarize the counts.
--
-- Returns models backend/app/rules/return_aggregation.py: build_gstr1, build_gstr3b,
-- gstr1_to_csv_rows and their helpers. as_dict turns figures into texts; the model keeps the
-- figures.
--
-- Validation models backend/app/rules/invoice_validation.py: one function for each of the ten
-- rules, which returns whether the rule passed and what it appends; it calls Gst and Gstin.
--
-- Filing models backend/app/services/approval_service.py (Filing.Approvals) and
-- backend/app/services/return_service.py (Filing.Prepare) on one database, with the tables of
-- backend/app/models/approval.py and gst_return.py. decide is the decision on a review task,
-- which moves the linked return; generate, submit_for_review and export are the methods of those
-- names, and generate calls Returns. Filing.Steps has the runs of both as sequences of calls, in
-- any order, with invoices that change in between; Filing.Results says what a successful call
-- found and left. Parameters are the text of ids (UuidText), the setting of the rules' version,
-- and the storage, a function that says whether an upload succeeds. A new row's id comes from a
-- counter, in place of a random one.
--
-- Matching models backend/app/services/reconciliation_service.py with the tables of
-- backend/app/models/reconciliation.py: Matching.Upload is parse_csv and import_records,
-- Matching.Service is run, which stores what Reconciliation computes, and the reads and the
-- export. A file is the rows that csv.reader makes of it, or none where it is not UTF-8; the
-- Decimal constructor on a text and the texts of ids are arguments.
--
-- Auth models backend/app/services/auth_service.py and backend/app/security/jwt.py: Auth.Slugs is
-- slugify and the search of register for a slug that is free, Auth.Service the methods of
-- AuthService with the payloads of the tokens. register also sets up the books (Books.Chart).
-- bcrypt, the library jwt (encode, and decode with the validation of the payload, where none is
-- any error) and uuid.UUID on a text are arguments.
--
-- Organization models backend/app/rules/org_membership.py,
-- backend/app/services/organization_service.py (Organization.Service) and
-- backend/app/security/passwords.py. bcrypt is a parameter; that a hash verifies its own password
-- is a hypothesis where it is used. Organization.Admins has the runs of the service.
--
-- Books models backend/app/services/accounting_service.py with the tables of
-- backend/app/models/accounting.py, on the engine of Accounting. Books.DayBook says what the
-- vouchers promise. Books.Chart is ensure_chart_of_accounts, Books.Vouchers the methods that
-- write (create_ledger, create_voucher, and post_invoice, which sets up the chart and goes on as
-- post_on_chart), Books.Reports is _ledger_lines, whose grouped queries are group_entries, and
-- the reports on it, Books.Statements the statement of a ledger, the lists and the rows of the
-- files. Of a report's file the cells are modelled, not their quoting. Books.Runs has the runs of
-- the service, Books.Sound what its tables promise each other, Books.Tied the trial balance of
-- such runs. The day of a call, and the financial year around it, are arguments of a report; a
-- voucher's number is kept as its count, and number_text writes it.
--
-- Two loops run on fuel: the search of register for a slug (Auth.Slugs.find_slug), whose number
-- of tries depends on the organizations there are, where one try more than these is enough; and
-- the digits of a number (Base.Strings.digits), where one more than the number is. All others are
-- structural recursion on lists.
--
-- Each call is one step: a transaction that fails leaves no change, and two calls do not
-- interleave. Not modelled are the HTTP routers and schemas, queries that only list or count,
-- audit metadata, log lines, and the parts that call language models, OCR, vector search, storage
-- and queues. The input tax credit and compliance services are not modelled either: the first
-- rests on figures and texts of a language model, the second stores what Validation computes with
-- explanations of that kind. Retrieval of documents is not modelled.
pub mod Base
pub mod Gst
pub mod Accounting
pub mod Gstin
pub mod Reconciliation
pub mod Returns
pub mod Validation
pub mod Filing
pub mod Organization
pub mod Books
pub mod Matching
pub mod Auth
