-- ===== src/Lib.antt =====
-- dBarter: a server that keeps accounts, notes, denominations and offers of barter in a database
-- of Berkeley DB (bom/), a daemon that runs commands of clients on it (bif/, barterd/), numbers
-- over GMP (dmath/), threads over pthreads (dthread/), and a log of transactions across servers
-- (dx/). A client's line is split into arguments by bif/common.cc, and looked up in the table of
-- commands of bif/shell.cc; a command opens a transaction, or joins that of its client, and calls
-- the methods of bom/, which read and write the tables of bom/db.cc and write events; readers and
-- writers of shared state take the lock of dthread/mutex_rw.cc.
--
-- The modules, with the code that they model:
--
--   Base             shared names; C strings as lists of bytes (Bytes), integers (Int), lists
--   Bif.Codec        bif/common.cc: decode_string, encode_string and what they call. Children:
--                    RoundTrip and Lines (decode after encode), Progress (the loops end), Output
--   Bif.Hash         bif/common.cc: hash_extract. Child: Lookup
--   Dthread.MutexRw  dthread/mutex_rw.cc: the methods as steps on the two counters. Children:
--                    Threads (threads that share a lock, as a step relation), Counts,
--                    Exclusion
--   Dmath.Quantity   the calls of GMP behind dmath::bq, and their laws; Hundredths and Powers are
--                    instances
--   Dmath.Bq         dmath/bq.cc: bq_to_string, _to_decimal and string_to_bq. Children: Decimal,
--                    Text, Forms, RoundTrip
--   Dmath.Integer    the calls of GMP behind dmath::bz; Ones is an instance
--   Dmath.Rsa        dmath/rsa.cc: rsa_crypt. Child: Inverse
--   Bom.Store        bom/db.cc: the tables, and the calls of Berkeley DB as a record of functions.
--                    Children: Laws (what the code relies on), Monad, Effects and Fuel (lemmas),
--                    Memory (an instance)
--   Bom.Text         bom/db.cc: the bytes of keys and values. Child: Numbers
--   Bom.Value        bom/value.cc: amounts of a denomination, as text. Child: RoundTrip
--   Bom.Event        bom/event.cc: events. Children: Frame (the tables that they touch), Types,
--                    Reads (lists of accounts, destroy, the last event), Numbers (the
--                    number of an event as text)
--   Bom.Denom        bom/denom.cc: denominations, their issuers, the list and the search. Child:
--                    Exists
--   Bom.Portfolio    the loops over the values of an account or a note (bom/acct.cc, bom/note.cc),
--                    which differ in what an unreadable amount does
--   Bom.Acct         bom/acct.cc: accounts, credits and debits. Children: Balance, Licence,
--                    Debit, History, Records, Challenge, Exists, Flags (flags as text)
--   Bom.Holdings     bom/acct.cc: the notes, events, denominations and offers of an account, and its
--                    end
--   Bom.Offer        bom/offer.cc: offers, and the index that finds the best. Children: Loops, Values
--   Bom.Tid          bom/tid.cc: transaction identifiers. Child: Records
--   Bom.Note         bom/note.cc: notes and their portfolios. Child: Loops
--   Bif.Trader       bif/trader.cc: the trade of two offers. Children: Fair, Refusal
--   Bif.Shell        bif/shell.cc: the state of a shell, its replies, and the bodies of commands.
--                    Children: Transact (the macros of a transaction), Subject (shared beginnings of
--                    commands), Denoms, Accts, Login, Money, Notes, Events, Offers and Txns (the
--                    commands, as bodies `*_body` in `cmd_*`), Dispatch (command_table, and what
--                    process does with a line), ReadLine (how a line is read). About them: Laws
--                    (what is relied on of the transactions), Memory (an instance), Inversion
--                    (lemmas), Atomic, Open, Guarded, and Closing, Guarded and others below the
--                    commands
--
-- A method of a C++ object is a function of the object's identifier; an int result and its
-- out-parameters are `Result`, and what has been written before an error stays written, since the
-- callers abort the transaction. A C string has no NUL inside, and is the list of its bytes. The
-- keys and values of the tables are the bytes that the program writes.
--
-- Fuel: a loop of bif/common.cc gets one unit more than the string that it reads is long, since
-- each round moves its pointer forward; that this is enough is proved with the loops. The loop of
-- rsa_crypt gets as many rounds as the message is large; with a modulus of 1 the source does not
-- end, and a check of a response is then `out_of_fuel`. The loops of _to_decimal get as many rounds
-- as the denominator is large; that this is enough is proved. A loop over a cursor takes its fuel as
-- an argument, and ends in `out_of_fuel` when that is spent; it is proved for the index of offers
-- and for portfolios that one unit more than the number of records behind the cursor is enough;
-- the lists of bom/acct.cc, bom/denom.cc and bom/event.cc run over whole tables in the same way.
-- A command outside a transaction of its client starts over on EAGAIN; its fuel bounds how often,
-- for the program sets no bound and Berkeley DB may return EAGAIN for ever, so that the answer
-- `spins` stands for a command that is still at work. The counters of the lock are bounded by the
-- number of threads, and those are far below INT_MAX.
--
-- A command of the shell is a function of the shell and of the server: a body over what its
-- transaction sees, within the macros. The body of a command that returns without the end of its
-- transaction may `leave`; a body that follows the NULL of an account without identifier crashes.
--
-- Berkeley DB and GMP are parameters: records of functions (Store, Server, Quantity, Ratio,
-- Integer) and records of the laws that the code relies on (IsStore, IsServer, IsCounted,
-- IsQuantity, IsRatio, IsInteger). The laws of transactions are those of one shell while no other commits.
-- New identifiers and challenges, which come from random numbers, are parameters too. Not
-- modelled: allocation (it is taken to succeed), sockets, the sessions with other servers and the
-- commands on them, exit and shutdown, files, signals, messages on stderr, the Perl bindings, web
-- pages and tools; the list of traders, the market, the log of dx/, fractions with the denominator
-- 0, the attributes of objects as text, and the lists of objects as text.
pub mod Base
pub mod Bif
pub mod Bom
pub mod Dmath
pub mod Dthread
