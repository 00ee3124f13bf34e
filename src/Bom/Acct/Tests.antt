-- ===== src/Bom/Acct/Tests.antt =====
-- Runs of the operations on money on the database in memory, with the integers for the amounts.
use d_barter.Base.{ℕ, arith, ◌≡◌, refl, sym, ◌∙◌, ap, true, false, some, ◌%◌}
use d_barter.Base.Bytes.{Bytes, codes, str_eq, break_at, read_digits}
use d_barter.Base.Int.{ℤ, pos}
use d_barter.Bom.Store.{acct_flags, acct_value, ok}
use d_barter.Bom.Store.Memory.{
  Table-discrete, content-no_rows, Memory, no_rows, memory, memory-IsStore,
}
use d_barter.Bom.Text.{
  NoNul, string_to_dbt, dbt_to_string, pair_key, int32_to_dbt, flags_to_dbt, dbt_to_flags,
}
use d_barter.Bom.Value.{Value, dbt_to_bq, bq_to_dbt}
use d_barter.Bom.Event.{
  gen_id, set_data, set_type, put_accts, set_acct_list, write_event, event_new_credit,
  event_new_debit,
}
use d_barter.Bom.Acct.{
  get_promise, set_promise, get_flags, set_flags, get_value, set_value, write_balance, del_value,
  may_overdraw, record_debit, credit, debit, debit_forced,
}
use d_barter.Bom.Acct.Balance.{amount, balance, Sets, credit-balance, debit_forced-balance}
use d_barter.Bom.Acct.Licence.{map_some, IsLicensed}
use d_barter.Bom.Acct.Debit.{Debits, debit-Debits}
use d_barter.Bom.Acct.Flags.{acct_flags_to_string, string_to_acct_flags}
use d_barter.Bom.Acct.Flags.RoundTrip.{string_to_acct_flags-acct_flags_to_string}
use d_barter.Bom.Acct.Records.{get_flags_promise-set}
use d_barter.Bom.Acct.History.{
  History, start, credited, debited, debit_forced-credit, History-nonneg,
}
use d_barter.Dmath.Bq.{string_to_bq, bq_to_string}
use d_barter.Dmath.Quantity.Hundredths.{hundredths}
use d_barter.Dmath.Quantity.Hundredths.Laws.{hundredths-IsQuantity}

abbrev jdb : Bytes
jdb = codes "jdb"

abbrev usd : ℤ → Value ℤ
usd q = record { denom = codes "USD"; quant = q }

abbrev credited_state : Memory
credited_state = (credit memory hundredths jdb (usd (pos 3)) no_rows).1

credit_runs : credit memory hundredths jdb (usd (pos 3)) no_rows ≡ (ok true, credited_state)
unfolding credit get_value write_balance set_value event_new_credit write_event gen_id set_data
    set_type set_acct_list put_accts
credit_runs = refl

abbrev debited_state : Memory
debited_state = (debit_forced memory hundredths jdb (usd (pos 3)) credited_state).1

debit_forced_runs :
    debit_forced memory hundredths jdb (usd (pos 3)) credited_state ≡ (ok tt, debited_state)
unfolding debit_forced credit get_value write_balance set_value del_value event_new_credit
    write_event gen_id set_data set_type set_acct_list put_accts event_new_debit Table-discrete
    str_eq pair_key dbt_to_bq dbt_to_string bq_to_dbt string_to_bq bq_to_string break_at read_digits
debit_forced_runs = refl

abbrev spent_state : Memory
spent_state = (debit memory hundredths jdb (usd (pos 2)) credited_state).1

debit_runs : debit memory hundredths jdb (usd (pos 2)) credited_state ≡ (ok true, spent_state)
unfolding debit credit record_debit get_value write_balance set_value del_value event_new_credit
    write_event gen_id set_data set_type set_acct_list put_accts event_new_debit str_eq
    dbt_to_string string_to_dbt pair_key Table-discrete int32_to_dbt dbt_to_bq bq_to_dbt
    string_to_bq bq_to_string break_at read_digits
debit_runs = refl

-- An account without flags, and a debit beyond what it holds, which is refused.
abbrev plain_state : Memory
plain_state = (set_flags memory jdb 0 credited_state).1

abbrev refused_state : Memory
refused_state = (debit memory hundredths jdb (usd (pos 5)) plain_state).1

debit_refused : debit memory hundredths jdb (usd (pos 5)) plain_state ≡ (ok false, refused_state)
unfolding debit credit get_value write_balance set_value event_new_credit write_event gen_id
    set_data set_type set_acct_list put_accts set_flags get_flags may_overdraw flags_to_dbt
    dbt_to_flags str_eq dbt_to_string string_to_dbt pair_key Table-discrete int32_to_dbt dbt_to_bq
    bq_to_dbt string_to_bq bq_to_string break_at read_digits
debit_refused = refl

usd-NoNul : NoNul (codes "USD")
usd-NoNul = (λ e. cc, (λ e. cc, (λ e. cc, tt)))

jdb-NoNul : NoNul jdb
jdb-NoNul = (λ e. cc, (λ e. cc, (λ e. cc, tt)))

-- The account is not licensed where there are no flags.
no_rows-ne-IsLicensed : ¬ IsLicensed memory memory-IsStore jdb (codes "USD") no_rows
no_rows-ne-IsLicensed (f, e, l) =
    cc (sym e ∙ ap (map_some dbt_to_flags) (content-no_rows acct_flags (string_to_dbt jdb)))

credit-balance_example :
    Sets memory memory-IsStore hundredths hundredths-IsQuantity jdb
      (codes "USD")
      (hundredths.add
        (balance memory memory-IsStore hundredths hundredths-IsQuantity jdb (codes "USD") no_rows)
        (pos 3))
      no_rows
      credited_state
credit-balance_example =
    credit-balance memory memory-IsStore hundredths hundredths-IsQuantity jdb (usd (pos 3)) no_rows
      credited_state credit_runs

debit_forced-balance_example :
    Sets memory memory-IsStore hundredths hundredths-IsQuantity jdb
      (codes "USD")
      (hundredths.sub
        (balance memory memory-IsStore hundredths hundredths-IsQuantity jdb
          (codes "USD")
          credited_state)
        (pos 3))
      credited_state
      debited_state
debit_forced-balance_example =
    debit_forced-balance memory memory-IsStore hundredths hundredths-IsQuantity jdb (usd (pos 3))
      credited_state debited_state debit_forced_runs

debit-Debits_example :
    Debits memory memory-IsStore hundredths hundredths-IsQuantity jdb
      (usd (pos 5))
      false
      plain_state
      refused_state
debit-Debits_example =
    debit-Debits memory memory-IsStore hundredths hundredths-IsQuantity jdb (usd (pos 5)) false
      plain_state refused_state debit_refused

debit_forced-credit_example :
    balance memory memory-IsStore hundredths hundredths-IsQuantity jdb (codes "USD") debited_state
    ≡ balance memory memory-IsStore hundredths hundredths-IsQuantity jdb (codes "USD") no_rows
debit_forced-credit_example =
    debit_forced-credit memory memory-IsStore hundredths hundredths-IsQuantity jdb jdb (codes "USD")
      (usd (pos 3)) no_rows credited_state debited_state jdb-NoNul usd-NoNul jdb-NoNul usd-NoNul
      credit_runs debit_forced_runs

spent_history : History memory memory-IsStore hundredths hundredths-IsQuantity no_rows spent_state
spent_history =
    debited jdb (usd (pos 2)) true
      (credited jdb (usd (pos 3)) start jdb-NoNul usd-NoNul refl credit_runs) jdb-NoNul usd-NoNul
      debit_runs

History-nonneg_example :
    hundredths.is_neg
      (balance memory memory-IsStore hundredths hundredths-IsQuantity jdb (codes "USD") spent_state)
    ≡ false
History-nonneg_example =
    History-nonneg memory memory-IsStore hundredths hundredths-IsQuantity jdb (codes "USD") no_rows
      spent_state jdb-NoNul usd-NoNul no_rows-ne-IsLicensed
      (ap (λ x. hundredths.is_neg (amount memory memory-IsStore hundredths hundredths-IsQuantity x))
        (content-no_rows acct_value (pair_key jdb (codes "USD"))))
      spent_history

abbrev the_flags : ℕ
the_flags = 6

abbrev flagged : Memory
flagged = (set_flags memory jdb 6 no_rows).1

abbrev promised : Memory
promised = (set_promise memory jdb (codes "gold") flagged).1

flags_set : set_flags memory jdb 6 no_rows ≡ (ok tt, flagged)
unfolding set_flags
flags_set = refl

promise_set : set_promise memory jdb (codes "gold") flagged ≡ (ok tt, promised)
unfolding set_promise
promise_set = refl

flags_got : get_flags memory jdb promised ≡ (ok 6, promised)
unfolding get_flags set_flags set_promise flags_to_dbt dbt_to_flags str_eq dbt_to_string
    string_to_dbt Table-discrete
flags_got = refl

promise_got : get_promise memory jdb promised ≡ (ok (codes "gold"), promised)
unfolding get_promise set_promise str_eq dbt_to_string string_to_dbt Table-discrete
promise_got = refl

get_flags_promise-set_example : (6 ≡ the_flags) × (codes "gold" ≡ codes "gold")
get_flags_promise-set_example =
    get_flags_promise-set memory memory-IsStore jdb 6 6 (codes "gold") (codes "gold") no_rows
      flagged promised promised promised (omega arith)
      (λ e. omega arith, (λ e. omega arith, (λ e. omega arith, (λ e. omega arith, tt)))) flags_set
      promise_set flags_got promise_got

-- Bits without a name are not written.
string_to_acct_flags-acct_flags_to_string_example :
    string_to_acct_flags (acct_flags_to_string 13) ≡ some (13 % 8)
string_to_acct_flags-acct_flags_to_string_example = string_to_acct_flags-acct_flags_to_string 13
