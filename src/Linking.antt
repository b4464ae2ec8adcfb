-- ===== src/Linking.antt =====
-- internal/linking/lead_lag.go and internal/linking/first_seen_aggregator.go: which of news and market came
-- first, by the clock of the source and by that of the ingestion.
pub mod Order
use polymarket_signal_autopi.Base.{
  Bool, true, false, not, ◌&&◌, ◌||◌, String, List, [], ◌∷◌, ℤ, pos, negsuc, Time, Duration, since,
  ltb, ltb_ℤ, if◌then◌else◌,
}
use polymarket_signal_autopi.Ingestion.RawWriter.{RawEvent}

-- The fields of a news item that are read here.
pub record Item : Type 0 where
  pub published_ts : Time
  pub first_seen_ingest_ts : Time

pub record Link (F : Type 0) : Type 0 where
  pub id : String
  pub market_event : RawEvent
  pub news_item : Item
  pub confidence : F

pub data Direction : Type 0 where
  news_leads market_leads concurrent : Direction

pub record LeadLagDelta : Type 0 where
  pub link_id : String
  pub delta_source : Duration
  pub delta_ingest : Duration
  pub direction_source : Direction
  pub direction_ingest : Direction

-- `directionFromDelta`
unfoldable pub direction_from_delta : Duration → Direction
direction_from_delta delta =
    if ltb_ℤ delta (pos 0)
    then news_leads
    else if ltb_ℤ (pos 0) delta
    then market_leads
    else concurrent

-- `ComputeDualClockDelta`
unfoldable pub compute_dual_clock_delta : {F : Type 0} → Link F → LeadLagDelta
unfolding direction_from_delta
compute_dual_clock_delta link =
    let delta_source = since link.news_item.published_ts link.market_event.source_ts in
    let delta_ingest = since link.news_item.first_seen_ingest_ts link.market_event.ingest_ts in
    record {
      link_id = link.id;
      delta_source = delta_source;
      delta_ingest = delta_ingest;
      direction_source = direction_from_delta delta_source;
      direction_ingest = direction_from_delta delta_ingest;
    }

abbrev pub same_direction : Direction → Direction → Bool
same_direction news_leads news_leads = true
same_direction market_leads market_leads = true
same_direction concurrent concurrent = true
same_direction x y = false

-- `DirectionConsistent`
unfoldable pub direction_consistent : LeadLagDelta → Bool
direction_consistent delta =
    if same_direction delta.direction_source concurrent
      || same_direction delta.direction_ingest concurrent
    then false
    else same_direction delta.direction_source delta.direction_ingest

-- The loop of `EarliestFirstSeen`.
unfoldable pub earliest_from : Time → List Item → Time
earliest_from earliest [] = earliest
earliest_from earliest (item ∷ items) =
    earliest_from
      (if ltb item.first_seen_ingest_ts earliest then item.first_seen_ingest_ts else earliest) items

-- `EarliestFirstSeen`
unfoldable pub earliest_first_seen : List Item → Time
unfolding earliest_from
earliest_first_seen [] = 0
earliest_first_seen (item ∷ items) = earliest_from item.first_seen_ingest_ts items
