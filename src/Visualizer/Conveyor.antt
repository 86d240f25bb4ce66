-- ===== src/Visualizer/Conveyor.antt =====
-- The six stages of the route: visualizer/src/components/Conveyor.tsx, without its markup.
use layer_backend.Base.{
  ℕ, String, Bool, true, false, Option, none, some, List, [], ◌∷◌, ◌<>◌, not, length, select, ltb,
  if◌then◌else◌,
}
use layer_backend.Base.Int.{ℤ}
use layer_backend.Schema.{BcEventType, BcEventStatus, OutboxStatus}
use layer_backend.Visualizer.Types.{Calculation, PipelineEvent, OutboxRow, Trace}
use layer_backend.Visualizer.Activity.{print_int}

pub data Tone : Type 0 where
  flow warn stop muted : Tone

pub record Stage : Type 0 where
  pub key : String
  pub index : String
  pub title : String
  pub what : String
  pub value : String
  pub tone : Tone
  pub detail : Option String

abbrev pub has_status : BcEventStatus → PipelineEvent → Bool
has_status status e = elim status [
  | BcEventStatus.pending ↦ elim e.status [ BcEventStatus.pending ↦ true | _ ↦ false ]
  | BcEventStatus.processed ↦ elim e.status [ BcEventStatus.processed ↦ true | _ ↦ false ]
  | BcEventStatus.failed ↦ elim e.status [ BcEventStatus.failed ↦ true | _ ↦ false ]
]

abbrev pub is_sent : OutboxRow → Bool
is_sent row = elim row.status [ OutboxStatus.sent ↦ true | _ ↦ false ]

abbrev pub events_of : Option Trace → List PipelineEvent
events_of none = []
events_of (some trace) = trace.events

abbrev pub outbox_of : Option Trace → List OutboxRow
outbox_of none = []
outbox_of (some trace) = trace.outbox

-- `events[0]`.
abbrev pub latest : List PipelineEvent → Option PipelineEvent
latest [] = none
latest (e ∷ es) = some e

abbrev pub published_of : Option Calculation → Option ℤ
published_of none = none
published_of (some c) = c.published_quantity

-- `${n}`, and `topicLabel`: `topic.replace('#simulated', '')`, which is no code of the repository.
module _ (print : ℕ → String) (topic_label : String → String) where
  unfoldable pub central_stage : List PipelineEvent → Stage
  central_stage events = record {
    key = "bc";
    index = "01";
    title = "Business Central";
    what = "Каса й склад повідомляють, скільки товару лежить у конкретному магазині.";
    value = print (length events);
    tone = if ltb 0 (length events) then flow else muted;
    detail = elim (latest events) [
      | none ↦ some "подій ще не було"
      | some e ↦ elim e.type [
        | BcEventType.product ↦ some "останнє: картка товару"
        | BcEventType.stock ↦ some "останнє: залишок"
      ]
    ];
  }

  unfoldable pub queue_stage : List PipelineEvent → Stage
  queue_stage events =
      let waiting = length (select (has_status BcEventStatus.pending) events) in
      record {
        key = "kafka";
        index = "02";
        title = "Kafka";
        what = "Повідомлення стає в чергу. Якщо сервіс лежав, воно дочекається його.";
        value = print waiting;
        tone =
            if ltb 0 waiting then warn else elim (latest events) [ none ↦ muted | some e ↦ flow ];
        detail = elim (latest events) [
          | none ↦ none
          | some e ↦
              if ltb 0 waiting
              then some (print waiting <> " чекає обробки")
              else some (topic_label e.topic <> " · нічого не чекає")
        ];
      }

  unfoldable pub inbox_stage : List PipelineEvent → Stage
  inbox_stage events =
      let processed = length (select (has_status BcEventStatus.processed) events) in
      let failed = length (select (has_status BcEventStatus.failed) events) in
      record {
        key = "inbox";
        index = "03";
        title = "Журнал подій";
        what = "Кожне повідомлення записується один раз. Повторна доставка не подвоює залишок.";
        value = print processed <> "/" <> print (length events);
        tone = if ltb 0 failed then stop else if ltb 0 processed then flow else muted;
        detail = some (
            if ltb 0 failed
            then print failed <> " відкладено з помилкою"
            else "опрацьовано без помилок");
      }

  unfoldable pub calculation_stage : Option Calculation → Stage
  calculation_stage calculation = record {
    key = "calc";
    index = "04";
    title = "Розрахунок";
    what = "Сума по магазинах мінус страховий запас мінус те, що вже в ордерах «Новий».";
    value = elim calculation [ none ↦ "—" | some c ↦ print_int print c.quantity ];
    tone = elim calculation [ none ↦ muted | some c ↦ if c.reservations_stale then warn else flow ];
    detail = some (elim calculation [
      | none ↦ "ще не рахували"
      | some c ↦ if c.reservations_stale then "резерв непідтверджений" else "усі дані підтверджені"
    ]);
  }

  unfoldable pub outbox_stage : List OutboxRow → Stage
  outbox_stage outbox =
      let queued = length (select (λ row. not (is_sent row)) outbox) in
      let sent = length (select is_sent outbox) in
      record {
        key = "outbox";
        index = "05";
        title = "Черга на сайт";
        what = "Результат лягає в чергу в одній транзакції з розрахунком, тому не може зникнути.";
        value = if ltb 0 queued then print queued else print sent;
        tone = if ltb 0 queued then warn else if ltb 0 sent then flow else muted;
        detail = some (
            if ltb 0 queued
            then print queued <> " чекає на відправку"
            else print sent <> " відправлено");
      }

  unfoldable pub site_stage : Option Calculation → Bool → Stage
  site_stage calculation ecom_reachable = record {
    key = "ecom";
    index = "06";
    title = "Сайт (ECOM)";
    what = "Кількість, яку бачить покупець. Звідси ж беруться ордери «Новий» для розрахунку.";
    value = elim (published_of calculation) [ none ↦ "—" | some q ↦ print_int print q ];
    tone =
        if not ecom_reachable
        then stop
        else elim (published_of calculation) [ none ↦ muted | some q ↦ flow ];
    detail = some (if ecom_reachable then "ECOM відповідає" else "ECOM не відповідає");
  }

  -- `buildStages`.
  unfoldable pub build_stages : Option Trace → Option Calculation → Bool → List Stage
  build_stages trace calculation ecom_reachable =
      central_stage (events_of trace)
      ∷ queue_stage (events_of trace)
      ∷ inbox_stage (events_of trace)
      ∷ calculation_stage calculation
      ∷ outbox_stage (outbox_of trace)
      ∷ site_stage calculation ecom_reachable
      ∷ []
