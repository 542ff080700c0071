-- ===== src/Transaction.antt =====
-- src/transaction: a request that is under way, and how it ended.
use creo_bench.Prelude.{ℕ, ◌+◌, ◌-◌, ◌≡◌, String, Option, none, some, arith}
use creo_bench.Load.Time.{
  StartTime, scheduled, elapsed, relative_to_start_of, RequestTiming, finish,
}

pub data DroppedCode : Type 0 where
  no_virtual_user late : DroppedCode
  error : String → DroppedCode

pub data FailedCode : Type 0 where
  send extract : String → FailedCode
  status : ℕ → FailedCode

pub data TimeoutCode : Type 0 where
  error : String → TimeoutCode

-- transaction/metadata.rs
pub record ResultMetadata : Type 0 where
  pub spec_id : ℕ
  pub virtual_user_id : ℕ
  pub loadgenerator_id : ℕ
  pub start_time : ℕ
  pub send_time : ℕ
  pub target_time : ℕ

pub record DroppedMetadata : Type 0 where
  pub virtual_user_id : Option ℕ
  pub loadgenerator_id : ℕ
  pub start_time : ℕ
  pub target_time : ℕ

-- The times are the response time and, but for a dropped transaction, the service time.
pub data TransactionResult : Type 0 where
  success : ResultMetadata → ℕ → ℕ → TransactionResult
  failed : ResultMetadata → ℕ → ℕ → FailedCode → TransactionResult
  timeout : ResultMetadata → ℕ → ℕ → TimeoutCode → TransactionResult
  dropped : DroppedMetadata → ℕ → DroppedCode → TransactionResult

-- The fields of its `Metadata`.
pub record Transaction : Type 0 where
  pub loadgenerator_id : ℕ
  pub start_time : StartTime
  pub target_time : ℕ

unfoldable pub new_transaction : ℕ → StartTime → ℕ → Transaction
new_transaction id start target = record {
  loadgenerator_id = id;
  start_time = start;
  target_time = target;
}

result_metadata : Transaction → ℕ → ℕ → RequestTiming → ResultMetadata
result_metadata t user spec timing = record {
  spec_id = spec;
  virtual_user_id = user;
  loadgenerator_id = t.loadgenerator_id;
  start_time = t.start_time.relative_to_start;
  send_time = relative_to_start_of t.start_time timing.sent_at;
  target_time = t.target_time;
}

-- The last argument of each is the current instant.
unfoldable pub into_dropped : Transaction → Option ℕ → DroppedCode → ℕ → TransactionResult
into_dropped t user code now =
    dropped
      (record {
        virtual_user_id = user;
        loadgenerator_id = t.loadgenerator_id;
        start_time = t.start_time.relative_to_start;
        target_time = t.target_time;
      })
      (elapsed t.start_time now) code

unfoldable pub into_success : Transaction → ℕ → ℕ → RequestTiming → ℕ → TransactionResult
unfolding result_metadata
into_success t user spec timing now =
    success (result_metadata t user spec timing) (elapsed t.start_time now) timing.service_time

unfoldable pub into_failed :
    Transaction → ℕ → ℕ → RequestTiming → FailedCode → ℕ → TransactionResult
unfolding result_metadata
into_failed t user spec timing code now =
    failed (result_metadata t user spec timing) (elapsed t.start_time now) timing.service_time code

unfoldable pub into_timeout :
    Transaction → ℕ → ℕ → RequestTiming → TimeoutCode → ℕ → TransactionResult
unfolding result_metadata
into_timeout t user spec timing code now =
    timeout (result_metadata t user spec timing) (elapsed t.start_time now) timing.service_time code

abbrev pub response_time : TransactionResult → ℕ
response_time (success m r s) = r
response_time (failed m r s code) = r
response_time (timeout m r s code) = r
response_time (dropped m r code) = r

abbrev pub service_time : TransactionResult → Option ℕ
service_time (success m r s) = some s
service_time (failed m r s code) = some s
service_time (timeout m r s code) = some s
service_time (dropped m r code) = none

abbrev pub send_time : TransactionResult → Option ℕ
send_time (success m r s) = some m.send_time
send_time (failed m r s code) = some m.send_time
send_time (timeout m r s code) = some m.send_time
send_time (dropped m r code) = none

-- For a transaction with a scheduled arrival, that is sent some time after it and ends when the
-- response has arrived, whether as a success, failed or with a timeout: its response time is the
-- wait before it was sent and the service time, its service time is that of the request, and its
-- recorded send time is the time since the start of the load test at which it was sent.
pub response-wait-service :
    (id time_zero offset target user spec wait service : ℕ) (f : FailedCode) (c : TimeoutCode)
    → let t = new_transaction id (scheduled time_zero offset) target in
      let sent = time_zero + offset + wait in
      let now = sent + service in
      let timing = finish sent now in
      let success_result = into_success t user spec timing now in
      let failed_result = into_failed t user spec timing f now in
      let timeout_result = into_timeout t user spec timing c now in
      (response_time success_result ≡ wait + service)
      × (response_time failed_result ≡ wait + service)
      × (response_time timeout_result ≡ wait + service)
      × (service_time success_result ≡ some service)
      × (service_time failed_result ≡ some service)
      × (service_time timeout_result ≡ some service)
      × (send_time success_result ≡ some (sent - time_zero))
      × (send_time failed_result ≡ some (sent - time_zero))
      × (send_time timeout_result ≡ some (sent - time_zero))
unfolding new_transaction scheduled finish into_success into_failed into_timeout elapsed
    relative_to_start_of
response-wait-service id time_zero offset target user spec wait service f c = ground arith
